-- ===== src/Sharding/KeyStore/SplitLoop.antt =====
-- The loop of split_by_key over the items of a dict: what each part has at each key.
use distsys_course_work.Prelude.{
  not, ℕ, ◌≡◌, ◌⊎◌, refl, sym, ap, ◌∙◌, inl, inr, Bool, true, false, Bool-cases, Option, none, some,
  String, List, [], ◌∷◌, if◌then◌else◌, arith, text_eq,
}
use distsys_course_work.Prelude.Dict
use distsys_course_work.Runtime.{ok}
use distsys_course_work.Sharding.KeyStore.{KeyStore, stays, split_loop}

abbrev pub Entries : Type 0
Entries = List (String × String)

-- What a dict has at a key after those of `items` that pass the test.
abbrev pub with_items : Bool → Option String → Option String → Option String
with_items taken none old = old
with_items taken (some v) old = if taken then some v else old

-- What a dict has after one more item, which no later item replaces.
module _ (flag : String → Bool) (key k value : String) (items d : Entries)
    (once : Dict.has key items ≡ false) where
  with_items-taken :
      flag key ≡ true
      → with_items (flag k) (Dict.lookup k items) (Dict.lookup k (Dict.insert key value d))
        ≡ with_items (flag k) (Dict.lookup k ((key, value) ∷ items)) (Dict.lookup k d)
  unfolding Dict.lookup
  with_items-taken taken =
      let at_key : (key ≡ k) → (flag key ≡ flag k) × (Dict.lookup key items ≡ Dict.lookup k items) =
        λ same. (ap flag same, ap (λ j. Dict.lookup j items) same) in
      ground (
        arith,
        Dict.lookup-insert key k value d,
        Dict.has-lookup key items,
        text_eq.same_iff key k,
        at_key,
      )

  with_items-passed :
      flag key ≡ false
      → with_items (flag k) (Dict.lookup k items) (Dict.lookup k d)
        ≡ with_items (flag k) (Dict.lookup k ((key, value) ∷ items)) (Dict.lookup k d)
  unfolding Dict.lookup
  with_items-passed passed =
      let at_key : (key ≡ k) → (flag key ≡ flag k) × (Dict.lookup key items ≡ Dict.lookup k items) =
        λ same. (ap flag same, ap (λ j. Dict.lookup j items) same) in
      ground (arith, Dict.has-lookup key items, text_eq.same_iff key k, at_key)

module _ (hash_mod : String → ℕ → ℕ) (s : KeyStore) (from_key split_key : String)
    (left : String → Bool) where
  with_items-nil :
      (k : String) (d : Entries) (taken : Bool)
      → with_items taken (Dict.lookup k []) (Dict.lookup k d) ≡ Dict.lookup k d
  unfolding Dict.lookup
  with_items-nil k d taken = refl

  has-cons :
      (k key value : String) (items : Entries)
      → (key ≡ k) ⊎ (Dict.has k items ≡ true)
      → Dict.has k ((key, value) ∷ items) ≡ true
  unfolding Dict.has
  has-cons k key value items (inl same) = ground (arith, (text_eq.same_iff key k).1 same)
  has-cons k key value items (inr later) = ground (arith, later)

  pub split_loop-lookup :
      (items l r : Entries)
      → Dict.IsDict items
      → ((key : String)
          → Dict.has key items ≡ true
          → stays hash_mod s from_key split_key (hash_mod key s.m) ≡ ok (left key))
      → (l' r' : Entries) × (split_loop hash_mod s from_key split_key items (l, r) ≡ ok (l', r'))
        × ((key : String)
            → Dict.lookup key l'
              ≡ with_items (left key) (Dict.lookup key items) (Dict.lookup key l))
        × ((key : String)
            → Dict.lookup key r'
              ≡ with_items (not (left key)) (Dict.lookup key items) (Dict.lookup key r))
  unfolding split_loop
  split_loop-lookup [] l r dict test = (
    l,
    r,
    refl,
    λ key. sym (with_items-nil key l (left key)),
    λ key. sym (with_items-nil key r (not (left key))),
  )
  split_loop-lookup ((key, value) ∷ items) l r dict test = elim (Bool-cases (left key)) [
    | inl stay ↦
        let (l', r', run, at_l, at_r) =
          split_loop-lookup items (Dict.insert key value l) r dict.1 later in
        (
          l',
          r',
          rw (here ∙ ap ok stay) run,
          λ k. at_l k ∙ with_items-taken left key k value items l dict.0 stay,
          λ k.
              at_r k
              ∙ with_items-passed (λ j. not (left j)) key k value items r dict.0 (ap not stay),
        )
    | inr leave ↦
        let (l', r', run, at_l, at_r) =
          split_loop-lookup items l (Dict.insert key value r) dict.1 later in
        (
          l',
          r',
          rw (here ∙ ap ok leave) run,
          λ k. at_l k ∙ with_items-passed left key k value items l dict.0 leave,
          λ k.
              at_r k
              ∙ with_items-taken (λ j. not (left j)) key k value items r dict.0 (ap not leave),
        )
  ]
    where
      here : stays hash_mod s from_key split_key (hash_mod key s.m) ≡ ok (left key)
      here = test key (has-cons key key value items (inl refl))

      later :
          (k : String)
          → Dict.has k items ≡ true
          → stays hash_mod s from_key split_key (hash_mod k s.m) ≡ ok (left k)
      later k h = test k (has-cons k key value items (inr h))
