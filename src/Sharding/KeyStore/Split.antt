-- ===== src/Sharding/KeyStore/Split.antt =====
-- split_by_key: when a node joins, the owner of its hash keeps what it still owns, and the new node
-- gets the rest.
use distsys_course_work.Prelude.{
  ℕ, suc, ◌-◌, ◌≤◌, ◌<◌, ◌≡◌, ◌⊎◌, refl, ◌∙◌, subst, sym, inl, inr, Bool, true, false, All,
  Bool-cases, Option, none, some, String, List, [], ◌∷◌, ltb, leb, if◌then◌else◌, arith, text_eq,
  ◌==◌, same_refl, ◌&&◌, ◌||◌, length, get_elem?,
}
use distsys_course_work.Runtime.{ok}
use distsys_course_work.Sharding.Deque.{negsuc, at}
use distsys_course_work.Sharding.KeyStore.{KeyStore, stays}
use distsys_course_work.Sharding.KeyStore.Ring.{
  IsSorted, last, last-get_elem?, last_le, last_le-place, owner, place,
}
use distsys_course_work.Sharding.KeyStore.Moves.{
  last-place, last_le-place_before, last_le-place_after, last_le-le, lt_of_last_le-none,
  last_le-none_mono,
}

-- The nodes stand at the hashes of their names.
abbrev pub IsHashed : (String → ℕ → ℕ) → ℕ → List (ℕ × String) → Type 0
IsHashed hash_mod m d = All (λ y. y.0 ≡ hash_mod y.1 m) d

abbrev pub owned_by : String → Option (ℕ × String) → Bool
owned_by name none = false
owned_by name (some y) = y.1 == name

at-last : (d : List (ℕ × String)) (y : ℕ × String) → last d ≡ some y → at d (negsuc 0) ≡ ok y
unfolding last
at-last [] y e = ground arith
at-last (x ∷ d) y e = ground (arith, here)
  where
    here : get_elem? (x ∷ d) (suc (length d) - 1) ≡ some y
    here = subst (λ i. get_elem? (x ∷ d) i ≡ some y) (omega arith) (sym (last-get_elem? d x) ∙ e)

pub last-IsHashed :
    (hash_mod : String → ℕ → ℕ) (m : ℕ) (d : List (ℕ × String)) (y : ℕ × String)
    → IsHashed hash_mod m d
    → last d ≡ some y
    → y.0 ≡ hash_mod y.1 m
unfolding last
last-IsHashed hash_mod m [] y all e = ground arith
last-IsHashed hash_mod m (x ∷ d) y all e = ground (arith, all.0, last-IsHashed hash_mod m d y all.1)

pub owner-cases :
    (h : ℕ) (d : List (ℕ × String)) (y : ℕ × String)
    → owner h d ≡ some y
    → (last_le h d ≡ some y) ⊎ ((last_le h d ≡ none) × (last d ≡ some y))
owner-cases h d y e = ground (arith, e)

module _ (hash_mod : String → ℕ → ℕ) (s : KeyStore) (ordered : IsSorted s.d)
    (hashed : IsHashed hash_mod s.m s.d) (from_key split_key : String)
    (differ : (from_key == split_key) ≡ false)
    (had : owner (hash_mod split_key s.m) s.d ≡ some (hash_mod from_key s.m, from_key)) where
  abbrev new_node : ℕ × String
  new_node = (hash_mod split_key s.m, split_key)

  abbrev joined : KeyStore
  joined = record s { d = place new_node s.d }

  abbrev from_node : ℕ × String
  from_node = (hash_mod from_key s.m, from_key)

  abbrev after : ℕ → Bool
  after h = owned_by from_key (owner h joined.d)

  -- The test of the loop, when the last node is `z`.
  abbrev stays_before : String → ℕ → Bool
  stays_before z h =
      if leb from_node.0 h && ltb h new_node.0
      then true
      else (from_key == z && (leb from_node.0 h || ltb h new_node.0))

  stays-last :
      (h : ℕ) (z : ℕ × String)
      → last joined.d ≡ some z
      → stays hash_mod joined from_key split_key h ≡ ok (stays_before z.1 h)
  unfolding stays
  stays-last h z e = ground (arith, at-last joined.d z e)

  last-joined : (z : ℕ × String) × (last joined.d ≡ some z)
  last-joined = elim (last-place new_node s.d ordered) [
    | inl (p, q) ↦ (new_node, p)
    | inr (y, p, q, gt) ↦ (y, p)
  ]

  agree :
      (h : ℕ) (z o : ℕ × String)
      → last joined.d ≡ some z
      → owner h joined.d ≡ some o
      → stays_before z.1 h ≡ (o.1 == from_key)
      → stays hash_mod joined from_key split_key h ≡ ok (after h)
  agree h z o e f same = rw (stays-last h z e, f, same) refl

  -- The hashes from the new node's on, up to the next node, and the others.
  moved_or_not :
      (h : ℕ)
      → last_le h s.d ≡ some from_node
      → last_le new_node.0 s.d ≡ some from_node
      → ((h < new_node.0) × (owner h joined.d ≡ some from_node))
        ⊎ ((new_node.0 ≤ h) × (owner h joined.d ≡ some new_node))
  moved_or_not h at_h at_new = elim (Bool-cases (ltb h new_node.0)) [
    | inl lt ↦
        inl
          (ground arith, rw (owner, last_le-place_before new_node h s.d (ground arith), at_h) refl)
    | inr le ↦ inr (
      ground arith,
      rw (owner, last_le-place_after new_node h s.d ordered (ground arith) (at_h ∙ sym at_new))
          refl,
    )
  ]

  stays-inside :
      (h : ℕ)
      → last_le h s.d ≡ some from_node
      → last_le new_node.0 s.d ≡ some from_node
      → stays hash_mod joined from_key split_key h ≡ ok (after h)
  stays-inside h at_h at_new =
      let le : from_node.0 ≤ h = last_le-le h s.d from_node at_h in
      let le_new : from_node.0 ≤ new_node.0 = last_le-le new_node.0 s.d from_node at_new in
      elim (moved_or_not h at_h at_new) [
        | inl (lt, f) ↦ elim (last-place new_node s.d ordered) [
          | inl (p, q) ↦ agree h new_node from_node p f (ground (arith, same_refl text_eq from_key))
          | inr (y, p, q, gt) ↦ agree h y from_node p f (ground (arith, same_refl text_eq from_key))
        ]
        | inr (ge, f) ↦ elim (last-place new_node s.d ordered) [
          | inl (p, q) ↦ agree h new_node new_node p f (
              ground (
                arith,
                differ,
                text_eq.same_iff split_key from_key,
                text_eq.same_iff from_key split_key,
              ))
          | inr (y, p, q, gt) ↦ agree h y new_node p f (
              ground (
                arith,
                differ,
                text_eq.same_iff split_key from_key,
                text_eq.same_iff from_key split_key,
                text_eq.same_iff from_key y.1,
                last-IsHashed hash_mod s.m s.d y hashed q,
              ))
        ]
      ]

  -- The node that had everything up to the new node's hash is the last one.
  stays-wrapped :
      (h : ℕ)
      → last_le h s.d ≡ none
      → last s.d ≡ some from_node
      → stays hash_mod joined from_key split_key h ≡ ok (after h)
  stays-wrapped h no_h at_end =
      let gt_h : h < from_node.0 = lt_of_last_le-none h s.d from_node no_h at_end in
      elim (Bool-cases (ltb h new_node.0)) [
        | inl lt ↦
            let kept : last_le h joined.d ≡ none =
              last_le-place_before new_node h s.d (ground arith) ∙ no_h in
            elim (last-place new_node s.d ordered) [
              | inl (p, q) ↦ agree h new_node new_node p (rw (owner, kept, p) refl) (
                  ground (
                    arith,
                    differ,
                    text_eq.same_iff split_key from_key,
                    text_eq.same_iff from_key split_key,
                  ))
              | inr (y, p, q, gt) ↦
                  let e : last joined.d ≡ some from_node = p ∙ sym q ∙ at_end in
                  agree h from_node from_node e (rw (owner, kept, e) refl)
                    (ground (arith, same_refl text_eq from_key))
            ]
        | inr ge ↦
            let no_new : last_le new_node.0 s.d ≡ none =
              last_le-none_mono new_node.0 h s.d (ground arith) no_h in
            let moved : last_le h joined.d ≡ some new_node =
              last_le-place_after new_node h s.d ordered (ground arith) (no_h ∙ sym no_new) in
            let (z, e) = last-joined in
            agree h z new_node e (rw (owner, moved) refl) (
              ground (
                arith,
                differ,
                text_eq.same_iff split_key from_key,
                text_eq.same_iff from_key split_key,
              ))
      ]

  -- The last node stays the one with what is before the new node and from itself on.
  stays-at_end :
      (h : ℕ)
      → last_le h s.d ≡ some from_node
      → last_le new_node.0 s.d ≡ none
      → last s.d ≡ some from_node
      → stays hash_mod joined from_key split_key h ≡ ok (after h)
  stays-at_end h at_h no_new at_end =
      let le : from_node.0 ≤ h = last_le-le h s.d from_node at_h in
      let kept : last_le h joined.d ≡ some from_node = elim (last_le-place h new_node s.d ordered) [
        | inl same ↦ same ∙ at_h
        | inr (_, same, _) ↦ absurd (ground arith)
      ] in
      elim (last-place new_node s.d ordered) [
        | inl (p, q) ↦ absurd (ground arith)
        | inr (y, p, q, gt) ↦
            agree h from_node from_node (p ∙ sym q ∙ at_end) (rw (owner, kept) refl)
              (ground (arith, same_refl text_eq from_key))
      ]

  -- The test keeps exactly the keys whose owner on the new ring is the old node.
  pub stays-owner :
      (h : ℕ)
      → owner h s.d ≡ some (hash_mod from_key s.m, from_key)
      → stays hash_mod joined from_key split_key h ≡ ok (after h)
  stays-owner h before = elim (owner-cases h s.d from_node before) [
    | inl at_h ↦ elim (owner-cases new_node.0 s.d from_node had) [
      | inl at_new ↦ stays-inside h at_h at_new
      | inr (no_new, at_end) ↦ stays-at_end h at_h no_new at_end
    ]
    | inr (no_h, at_end) ↦ stays-wrapped h no_h at_end
  ]
