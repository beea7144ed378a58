-- ===== src/Sharding/KeyStore/Partition.antt =====
-- split_by_key, the whole loop: the data of the old owner is parted by the owners on the new ring.
use distsys_course_work.Prelude.{
  not, ℕ, ◌<◌, ◌≡◌, ◌⊎◌, refl, ap, ◌∙◌, inl, inr, Bool, true, false, Bool-cases, Option, none, some,
  String, List, [], ◌∷◌, length, if◌then◌else◌, arith, text_eq, ◌==◌, same_refl,
}
use distsys_course_work.Prelude.Dict
use distsys_course_work.Runtime.{ok}
use distsys_course_work.Sharding.KeyStore.{KeyStore, get_closest_key, add_key, split_by_key}
use distsys_course_work.Sharding.KeyStore.Ring.{owner, last, last_le}
use distsys_course_work.Sharding.KeyStore.Closest.{add_key-place}
use distsys_course_work.Sharding.KeyStore.Split.{owned_by, stays-owner}
use distsys_course_work.Sharding.KeyStore.Rings.{
  IsRing, owner_of_closest, joined_store, joined_store-IsRing, closest-joined_store,
}
use distsys_course_work.Sharding.KeyStore.SplitLoop.{Entries, with_items, split_loop-lookup}

length-owner : (h : ℕ) (d : List (ℕ × String)) (y : ℕ × String) → owner h d ≡ some y → 0 < length d
unfolding last last_le
length-owner h [] y e = ground arith
length-owner h (x ∷ d) y e = omega arith

with_items-true : (o : Option String) → with_items true o none ≡ o
with_items-true none = refl
with_items-true (some v) = refl

with_items-false : (o : Option String) → with_items false o none ≡ none
with_items-false none = refl
with_items-false (some v) = refl

module _ (hash_mod : String → ℕ → ℕ) where
  abbrev left : KeyStore → String → String → String → Bool
  left s from_key split_key key =
      owned_by from_key (owner (hash_mod key s.m) (joined_store hash_mod s split_key).d)

  left-found :
      (s : KeyStore)
      → IsRing hash_mod s
      → (from_key split_key key name : String)
      → get_closest_key hash_mod (joined_store hash_mod s split_key) key ≡ ok name
      → left s from_key split_key key ≡ (name == from_key)
  left-found s ring from_key split_key key name e = ap (owned_by from_key) (
      owner_of_closest hash_mod (joined_store hash_mod s split_key)
        (joined_store-IsRing hash_mod s split_key ring) key name e)

  lookup_part :
      (flag : Bool) (key : String) (data_ part : Entries)
      → Dict.lookup key part ≡ with_items flag (Dict.lookup key data_) (Dict.lookup key [])
      → Dict.lookup key part ≡ (if flag then Dict.lookup key data_ else none)
  unfolding Dict.lookup
  lookup_part true key data_ part e = e ∙ with_items-true _
  lookup_part false key data_ part e = e ∙ with_items-false _

  part :
      (s : KeyStore)
      → IsRing hash_mod s
      → (from_key split_key : String) → (from_key == split_key) ≡ false
      → (data_ kept given : Entries) → get_closest_key hash_mod s split_key ≡ ok from_key
      → ((key : String) → Dict.has key data_ ≡ true → get_closest_key hash_mod s key ≡ ok from_key)
      → (key : String)
      → Dict.lookup key kept
        ≡ (if left s from_key split_key key then Dict.lookup key data_ else none)
      → Dict.lookup key given
        ≡ (if not (left s from_key split_key key) then Dict.lookup key data_ else none)
      → ((get_closest_key hash_mod (joined_store hash_mod s split_key) key ≡ ok from_key)
          × (Dict.lookup key kept ≡ Dict.lookup key data_)
          × (Dict.lookup key given ≡ none))
        ⊎ ((get_closest_key hash_mod (joined_store hash_mod s split_key) key ≡ ok split_key)
            × (Dict.lookup key kept ≡ none)
            × (Dict.lookup key given ≡ Dict.lookup key data_))
        ⊎ (Dict.has key data_ ≡ false)
          × (Dict.lookup key kept ≡ none)
          × (Dict.lookup key given ≡ none)
  part s ring from_key split_key differ data_ kept given had owned key at_kept at_given =
      elim (Bool-cases (Dict.has key data_)) [
        | inr absent ↦
            let no_entry : Dict.lookup key data_ ≡ none =
              ground (arith, Dict.has-lookup key data_, absent) in
            inr
              (inr (absent, ground (arith, at_kept, no_entry), ground (arith, at_given, no_entry)))
        | inl present ↦ elim (closest-joined_store hash_mod s split_key key ring) [
          | inl same ↦
              let found = same ∙ owned key present in
              let stay : left s from_key split_key key ≡ true =
                left-found s ring from_key split_key key from_key found
                ∙ same_refl text_eq from_key in
              inl (
                found,
                at_kept ∙ ap (λ b. if b then Dict.lookup key data_ else none) stay,
                at_given ∙ ap (λ b. if not b then Dict.lookup key data_ else none) stay,
              )
          | inr (moved, _) ↦
              let leave : left s from_key split_key key ≡ false =
                left-found s ring from_key split_key key split_key moved
                ∙ ground (
                  arith,
                  differ,
                  text_eq.same_iff split_key from_key,
                  text_eq.same_iff from_key split_key,
                ) in
              inr (
                inl (
                  moved,
                  at_kept ∙ ap (λ b. if b then Dict.lookup key data_ else none) leave,
                  at_given ∙ ap (λ b. if not b then Dict.lookup key data_ else none) leave,
                ))
        ]
      ]

  -- On a ring, when a node of another name is added, and all keys of the data and the new name are
  -- found at `from_key`, add_key and split_by_key raise nothing, and of each entry: its key is still
  -- found at `from_key` and it is in the first part only, or its key is found at the new node and it
  -- is in the second part only; a key without an entry is in neither part.
  pub split_by_new_owner :
      (s : KeyStore)
      → IsRing hash_mod s
      → (from_key split_key : String) → (from_key == split_key) ≡ false
      → (data_ : Entries) → Dict.IsDict data_
      → get_closest_key hash_mod s split_key ≡ ok from_key
      → ((key : String) → Dict.has key data_ ≡ true → get_closest_key hash_mod s key ≡ ok from_key)
      → (s' : KeyStore) × (kept given : Entries) × (add_key hash_mod s split_key ≡ ok s')
        × (split_by_key hash_mod s' data_ from_key split_key ≡ ok (kept, given))
        × ((key : String)
            → ((get_closest_key hash_mod s' key ≡ ok from_key)
                × (Dict.lookup key kept ≡ Dict.lookup key data_)
                × (Dict.lookup key given ≡ none))
              ⊎ ((get_closest_key hash_mod s' key ≡ ok split_key)
                  × (Dict.lookup key kept ≡ none)
                  × (Dict.lookup key given ≡ Dict.lookup key data_))
              ⊎ (Dict.has key data_ ≡ false)
                × (Dict.lookup key kept ≡ none)
                × (Dict.lookup key given ≡ none))
  unfolding split_by_key
  split_by_new_owner s ring from_key split_key differ data_ dict had owned =
      let owner_had = owner_of_closest hash_mod s ring split_key from_key had in
      let nodes = length-owner _ s.d _ owner_had in
      let (l, r, run, at_l, at_r) =
        split_loop-lookup hash_mod (joined_store hash_mod s split_key) from_key split_key
          (left s from_key split_key) data_ [] [] dict
          (λ key h.
            stays-owner hash_mod s ring.ordered ring.hashed from_key split_key differ owner_had
              (hash_mod key s.m) (owner_of_closest hash_mod s ring key from_key (owned key h))) in
      (
        joined_store hash_mod s split_key,
        l,
        r,
        add_key-place hash_mod s ring.ordered nodes split_key,
        run,
        λ key.
            part s ring from_key split_key differ data_ l r had owned key
              (lookup_part (left s from_key split_key key) key data_ l (at_l key))
              (lookup_part (not (left s from_key split_key key)) key data_ r (at_r key)),
      )
