-- ===== src/Sharding/KeyStore/Closest.antt =====
-- get_index_by_key, get_closest_key and add_key against the ring.
use native.Mathlib.Nat.{pow-suc, pow-zero}
use distsys_course_work.Prelude.{
  ℕ, zero, suc, ◌-◌, ◌^◌, ◌≤◌, ◌<◌, ◌≡◌, refl, ◌∙◌, subst, inl, inr, Bool, true, false, Option,
  none, some, String, List, [], ◌∷◌, Bool-cases, get_elem?, get_elem?_of_lt, length, if◌then◌else◌,
  lt_of_get_elem?, ltb, arith, nat_eq,
}
use distsys_course_work.Runtime.{Result, ok, raise, index_error}
use distsys_course_work.Sharding.Deque.{ℤ, pos, negsuc, at}
use distsys_course_work.Sharding.KeyStore.{
  KeyStore, get_index_by_key, get_closest_key, add_key, bin_search,
}
use distsys_course_work.Sharding.KeyStore.Search.{bin_search-Cut}
use distsys_course_work.Sharding.KeyStore.Ring.{
  IsSorted, IsSorted-get_elem?, Cut, last, last-get_elem?, last_le, last_le-Cut, last_le-Cut_zero,
  owner, place, insert_from_left-place,
}

abbrev pub owner_name : Option (ℕ × String) → Result String
owner_name none = raise index_error
owner_name (some el) = ok el.1

lt-pow : (n : ℕ) → n < 2 ^ n
lt-pow zero = omega (arith, pow-zero 2)
lt-pow (suc n) = omega (arith, pow-suc 2 n, lt-pow n)

-- The index of the node before the cut: the ring's last node, or -1, when the cut is at the start.
abbrev before_cut : Bool → ℕ → ℕ → ℤ
before_cut key_add zero len = if key_add then negsuc 0 else pos (len - 1)
before_cut key_add (suc i) len = pos i

module _ (hash_mod : String → ℕ → ℕ) (m : ℕ) (x : ℕ × String) (d : List (ℕ × String))
    (ordered : IsSorted (x ∷ d)) where
  abbrev store : KeyStore
  store = record { m = m; d = x ∷ d }

  get_index_by_key-later :
      (key : String) (key_add : Bool) (i : ℕ)
      → ltb (hash_mod key m) x.0 ≡ false
      → bin_search (suc (length d)) (x ∷ d) (hash_mod key m) 0 (suc (length d) - 1) ≡ ok i
      → get_index_by_key hash_mod store key key_add ≡ ok (pos i)
  unfolding get_index_by_key
  get_index_by_key-later key key_add i later run = rw (later, if◌then◌else◌, run) refl

  get_index_by_key-Cut :
      (key : String) (key_add : Bool)
      → (n : ℕ) × (get_index_by_key hash_mod store key key_add
          ≡ ok (before_cut key_add n (suc (length d))))
        × (n ≤ suc (length d))
        × Cut (hash_mod key m) n (x ∷ d)
  unfolding get_index_by_key
  get_index_by_key-Cut key key_add = elim (Bool-cases (ltb (hash_mod key m) x.0)) [
    | inl first ↦ (
      0,
      ground arith,
      omega arith,
      λ j a e. (
        λ lt. absurd (omega arith),
        λ le. let least = IsSorted-get_elem? (x ∷ d) 0 j x a ordered le refl e in ground arith,
      ),
    )
    | inr later ↦
        let (i, run, lt, found) =
          bin_search-Cut (x ∷ d) (hash_mod key m) ordered (length d) 0 (suc (length d) - 1)
            (omega arith) (omega arith) (omega (arith, lt-pow (length d)))
            (λ j a le e.
              let least = IsSorted-get_elem? (x ∷ d) j 0 a x ordered le e refl in ground arith)
            (λ j a lt e. absurd (omega (arith, lt_of_get_elem? (x ∷ d) j a e))) in
        (suc i, get_index_by_key-later key key_add i later run, lt, found)
  ]

  get_closest_key-owner_cons :
      (key : String)
      → get_closest_key hash_mod store key ≡ owner_name (owner (hash_mod key m) (x ∷ d))
  unfolding get_closest_key
  get_closest_key-owner_cons key =
      let (n, run, le, cut) = get_index_by_key-Cut key false in found n run le cut
    where
      found :
          (n : ℕ)
          → get_index_by_key hash_mod store key false ≡ ok (before_cut false n (suc (length d)))
          → n ≤ suc (length d)
          → Cut (hash_mod key m) n (x ∷ d)
          → get_closest_key hash_mod store key ≡ owner_name (owner (hash_mod key m) (x ∷ d))
      found zero run le cut =
          let (el, at) = get_elem?_of_lt (x ∷ d) (suc (length d) - 1) (omega arith) in
          let last_at : ◌≡◌ {A = Option (ℕ × String)} (last (x ∷ d)) (some el) =
            last-get_elem? d x ∙ subst (λ i. get_elem? (x ∷ d) i ≡ some el) (omega arith) at in
          rw (run, owner_name, owner, last_le-Cut_zero (hash_mod key m) (x ∷ d) cut, last_at, at)
            refl
      found (suc n) run le cut =
          let (el, e) = get_elem?_of_lt (x ∷ d) n le in
          rw (run, owner_name, owner, last_le-Cut (hash_mod key m) n (x ∷ d) cut le, e) refl

  add_key-place_cons :
      (key : String)
      → add_key hash_mod store key ≡ ok (record { m = m; d = place (hash_mod key m, key) (x ∷ d) })
  unfolding add_key
  add_key-place_cons key =
      let (n, run, le, cut) = get_index_by_key-Cut key true in added n run le cut
    where
      added :
          (n : ℕ)
          → get_index_by_key hash_mod store key true ≡ ok (before_cut true n (suc (length d)))
          → n ≤ suc (length d)
          → Cut (hash_mod key m) n (x ∷ d)
          → add_key hash_mod store key
            ≡ ok (record { m = m; d = place (hash_mod key m, key) (x ∷ d) })
      added zero run le cut =
          rw (run, insert_from_left-place (hash_mod key m, key) 0 (x ∷ d) cut le) refl
      added (suc n) run le cut =
          rw (run, insert_from_left-place (hash_mod key m, key) (suc n) (x ∷ d) cut le) refl

-- On nodes sorted by hash, get_closest_key gives the last node at or before the hash of the key, or
-- the last of all when there is none; without nodes it raises IndexError.
pub get_closest_key-owner :
    (hash_mod : String → ℕ → ℕ) (s : KeyStore)
    → IsSorted s.d
    → (key : String) → get_closest_key hash_mod s key ≡ owner_name (owner (hash_mod key s.m) s.d)
unfolding get_closest_key get_index_by_key last last_le
get_closest_key-owner hash_mod s = on_nodes s.d
  where
    on_nodes :
        (d : List (ℕ × String))
        → IsSorted d
        → (key : String)
        → get_closest_key hash_mod (record { m = s.m; d = d }) key
          ≡ owner_name (owner (hash_mod key s.m) d)
    on_nodes [] ordered key = refl
    on_nodes (x ∷ d) ordered key = get_closest_key-owner_cons hash_mod s.m x d ordered key

-- On a ring that is not empty a new node is placed behind the nodes of hashes up to its own.
pub add_key-place :
    (hash_mod : String → ℕ → ℕ) (s : KeyStore)
    → IsSorted s.d
    → 0 < length s.d
    → (key : String)
    → add_key hash_mod s key ≡ ok (record s { d = place (hash_mod key s.m, key) s.d })
add_key-place hash_mod s = on_nodes s.d
  where
    on_nodes :
        (d : List (ℕ × String))
        → IsSorted d
        → 0 < length d
        → (key : String)
        → add_key hash_mod (record { m = s.m; d = d }) key
          ≡ ok (record { m = s.m; d = place (hash_mod key s.m, key) d })
    on_nodes [] ordered some_node key = absurd (omega arith)
    on_nodes (x ∷ d) ordered some_node key = add_key-place_cons hash_mod s.m x d ordered key
