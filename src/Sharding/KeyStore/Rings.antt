-- ===== src/Sharding/KeyStore/Rings.antt =====
-- The rings that a KeyStore has: sorted, with every node at the hash of its name.
use distsys_course_work.Prelude.{
  ℕ, ◌≤◌, ◌<◌, ◌≡◌, ◌⊎◌, refl, sym, ap, ◌∙◌, inl, inr, All, All-map, Bool-cases, none, some,
  Option-cases, String, List, [], ◌∷◌, length, if◌then◌else◌, arith, text_eq,
}
use distsys_course_work.Runtime.{ok, ok-injective}
use distsys_course_work.Sharding.KeyStore.{
  KeyStore, tuple_le, insert_sorted, init, get_closest_key, add_key,
}
use distsys_course_work.Sharding.KeyStore.Ring.{
  IsSorted, last_le, owner, place, place-IsSorted, All-insert,
}
use distsys_course_work.Sharding.KeyStore.Closest.{owner_name, get_closest_key-owner, add_key-place}
use distsys_course_work.Sharding.KeyStore.Moves.{owner-place}
use distsys_course_work.Sharding.KeyStore.Split.{IsHashed, last-IsHashed, owner-cases}

-- The two together.
pub record IsRing (hash_mod : String → ℕ → ℕ) (s : KeyStore) : Type 0 where
  pub ordered : IsSorted s.d
  pub hashed : IsHashed hash_mod s.m s.d

All-insert_sorted :
    (P : ℕ × String → Type 0) (el : ℕ × String) (d : List (ℕ × String))
    → P el
    → All P d
    → All P (insert_sorted el d)
All-insert_sorted P el [] p all = (p, tt)
All-insert_sorted P el (x ∷ d) p all = elim (Bool-cases (tuple_le el x)) [
  | inl before ↦ rw (before, if◌then◌else◌) (p, all)
  | inr after ↦ rw (after, if◌then◌else◌) (all.0, All-insert_sorted P el d p all.1)
]

insert_sorted-IsSorted :
    (el : ℕ × String) (d : List (ℕ × String)) → IsSorted d → IsSorted (insert_sorted el d)
insert_sorted-IsSorted el [] s = (tt, tt)
insert_sorted-IsSorted el (x ∷ d) s = elim (Bool-cases (tuple_le el x)) [
  | inl before ↦
      let le : el.0 ≤ x.0 = ground arith in
      rw (before, if◌then◌else◌)
        ((le, All-map (λ y. x.0 ≤ y.0) (λ y. el.0 ≤ y.0) (λ y h. omega arith) d s.0), s)
  | inr after ↦
      let le : x.0 ≤ el.0 = ground arith in
      rw (after, if◌then◌else◌)
        (All-insert_sorted (λ y. x.0 ≤ y.0) el d le s.0, insert_sorted-IsSorted el d s.1)
]

module _ (hash_mod : String → ℕ → ℕ) where
  pub init-IsRing : (keys : List String) (m : ℕ) → IsRing hash_mod (init hash_mod keys m)
  unfolding init
  init-IsRing [] m = record { ordered = tt; hashed = tt }
  init-IsRing (key ∷ keys) m =
      let rest = init-IsRing keys m in
      record {
        ordered = insert_sorted-IsSorted _ _ rest.ordered;
        hashed = All-insert_sorted (λ y. y.0 ≡ hash_mod y.1 m) _ _ refl rest.hashed;
      }

  last_le-IsHashed :
      (m h : ℕ) (d : List (ℕ × String)) (y : ℕ × String)
      → IsHashed hash_mod m d
      → last_le h d ≡ some y
      → y.0 ≡ hash_mod y.1 m
  unfolding last_le
  last_le-IsHashed m h [] y all e = ground arith
  last_le-IsHashed m h (x ∷ d) y all e = ground (arith, all.0, last_le-IsHashed m h d y all.1)

  owner-IsHashed :
      (m h : ℕ) (d : List (ℕ × String)) (y : ℕ × String)
      → IsHashed hash_mod m d
      → owner h d ≡ some y
      → y.0 ≡ hash_mod y.1 m
  owner-IsHashed m h d y all e = elim (owner-cases h d y e) [
    | inl here ↦ last_le-IsHashed m h d y all here
    | inr (_, at_end) ↦ last-IsHashed hash_mod m d y all at_end
  ]

  -- The name that is found is that of the node at its hash.
  pub owner_of_closest :
      (s : KeyStore)
      → IsRing hash_mod s
      → (key name : String) → get_closest_key hash_mod s key ≡ ok name
      → owner (hash_mod key s.m) s.d ≡ some (hash_mod name s.m, name)
  owner_of_closest s ring key name e =
      let found : owner_name (owner (hash_mod key s.m) s.d) ≡ ok name =
        sym (get_closest_key-owner hash_mod s ring.ordered key) ∙ e in
      elim (Option-cases (owner (hash_mod key s.m) s.d)) [
        | inl no_node ↦ absurd (no_name (sym (ap owner_name no_node) ∙ found))
        | inr (y, at_y) ↦
            at_y
            ∙ ap (λ n. some (n, y.1)) (owner-IsHashed s.m (hash_mod key s.m) s.d y ring.hashed at_y)
            ∙ ap (λ n. some (hash_mod n s.m, n)) (ok-injective (sym (ap owner_name at_y) ∙ found))
      ]
    where
      no_name : ¬ owner_name none ≡ ok name
      no_name h = cc

  abbrev pub joined_store : KeyStore → String → KeyStore
  joined_store s new_key = record s { d = place (hash_mod new_key s.m, new_key) s.d }

  pub joined_store-IsRing :
      (s : KeyStore) (new_key : String)
      → IsRing hash_mod s
      → IsRing hash_mod (joined_store s new_key)
  joined_store-IsRing s new_key ring = record {
    ordered = place-IsSorted _ s.d ring.ordered;
    hashed = All-insert (λ y. y.0 ≡ hash_mod y.1 s.m) _ s.d refl ring.hashed;
  }

  pub closest-joined_store :
      (s : KeyStore) (new_key key : String)
      → IsRing hash_mod s
      → (get_closest_key hash_mod (joined_store s new_key) key ≡ get_closest_key hash_mod s key)
        ⊎ ((get_closest_key hash_mod (joined_store s new_key) key ≡ ok new_key)
            × (get_closest_key hash_mod s key ≡ get_closest_key hash_mod s new_key))
  closest-joined_store s new_key key ring =
      let at_old = get_closest_key-owner hash_mod s ring.ordered in
      let at_new =
        get_closest_key-owner hash_mod (joined_store s new_key)
          (joined_store-IsRing s new_key ring).ordered key in
      elim (owner-place (hash_mod key s.m) (hash_mod new_key s.m, new_key) s.d ring.ordered) [
        | inl same ↦ inl (at_new ∙ ap owner_name same ∙ sym (at_old key))
        | inr (moved, had) ↦
            inr
              (at_new ∙ ap owner_name moved, at_old key ∙ ap owner_name had ∙ sym (at_old new_key))
      ]

  -- add_key of a new node on a ring that is not empty raises nothing and gives a ring; there, each
  -- key is found at the same node as before, or at the new one, and then before it was found where
  -- the new node's name was.
  pub closest_after_joining :
      (s : KeyStore)
      → IsRing hash_mod s
      → 0 < length s.d
      → (new_key : String)
      → (s' : KeyStore) × (add_key hash_mod s new_key ≡ ok s')
        × IsRing hash_mod s'
        × ((key : String)
            → (get_closest_key hash_mod s' key ≡ get_closest_key hash_mod s key)
              ⊎ ((get_closest_key hash_mod s' key ≡ ok new_key)
                  × (get_closest_key hash_mod s key ≡ get_closest_key hash_mod s new_key)))
  closest_after_joining s ring nodes new_key = (
    joined_store s new_key,
    add_key-place hash_mod s ring.ordered nodes new_key,
    joined_store-IsRing s new_key ring,
    λ key. closest-joined_store s new_key key ring,
  )
