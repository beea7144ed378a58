-- ===== src/Sharding/KeyStore.antt =====
-- KeyStore: the nodes on a ring, by hash; a key belongs to the last node at or before its hash.
-- `hash_mod key m` is `hash(key) % m`, whose `hash` the interpreter chooses.
pub mod Search
pub mod Ring
pub mod Closest
pub mod Moves
pub mod Split
pub mod Rings
pub mod SplitLoop
pub mod Partition
use Prim.Native.Nat.{Ordering}
use Prim.Native.String.{compare}
use distsys_course_work.Prelude.{
  ◌≡◌, ap, ◌↔◌, arith, ℕ, zero, suc, ◌+◌, ◌-◌, ◌/◌, String, Bool, true, false, ◌&&◌, ◌||◌, not,
  Option, none, some, List, [], ◌∷◌, map, length, get_elem?, ltb, leb, Eq, ◌==◌, nat_eq, text_eq,
  if◌then◌else◌,
}
use distsys_course_work.Prelude.Dict
use distsys_course_work.Runtime.{Result, ok, raise, recursion_error, index_error, ◌>>=◌}
use distsys_course_work.Sharding.Deque.{
  ℤ, pos, negsuc, add_one, or_raise, at, insert_at, remove_first,
}

pub node_same_iff :
    (a b : ℕ) (s t : String) → ((a == b && s == t) ≡ true) ↔ (◌≡◌ {A = ℕ × String} (a, s) (b, t))
node_same_iff a b s t = (
  λ h. cc ((nat_eq.same_iff a b).0 (ground arith), (text_eq.same_iff s t).0 (ground arith)),
  λ h.
      let first : ◌≡◌ {A = ℕ} a b = ap (λ p. p.0) h in
      let second : ◌≡◌ {A = String} s t = ap (λ p. p.1) h in
      ground (arith, nat_eq.same_iff a b, text_eq.same_iff s t, first, second),
)

instance abbrev pub node_eq : Eq (ℕ × String)
node_eq = record {
  same = λ a b. a.0 == b.0 && a.1 == b.1;
  same_iff = λ (a, s) (b, t). node_same_iff a b s t;
}

pub record KeyStore : Type 0 where
  pub m : ℕ
  pub d : List (ℕ × String)

-- The order of Python's tuples.
abbrev pub tuple_le : ℕ × String → ℕ × String → Bool
tuple_le (a, s) (b, t) =
    if ltb a b then true else (a == b && elim (compare s t) [ Ordering.gt ↦ false | _ ↦ true ])

abbrev pub insert_sorted : ℕ × String → List (ℕ × String) → List (ℕ × String)
insert_sorted el [] = el ∷ []
insert_sorted el (x ∷ d) =
    let rest = insert_sorted el d in if tuple_le el x then el ∷ x ∷ d else x ∷ rest

abbrev pub sorted : List (ℕ × String) → List (ℕ × String)
sorted [] = []
sorted (x ∷ xs) = insert_sorted x (sorted xs)

-- The binary search, with fuel for its recursion.
unfoldable pub bin_search : ℕ → List (ℕ × String) → ℕ → ℕ → ℕ → Result ℕ
bin_search zero d key_hash l r = raise recursion_error
bin_search (suc fuel) d key_hash l r = elim (r == l) [
  | true ↦ ok r
  | false ↦ at d (pos ((l + r) / 2 + 1)) >>= λ el. elim (ltb key_hash el.0) [
    | true ↦ bin_search fuel d key_hash l ((l + r) / 2 + 1 - 1)
    | false ↦ bin_search fuel d key_hash ((l + r) / 2 + 1) r
  ]
]

module _ (hash_mod : String → ℕ → ℕ) where
  unfoldable pub init : List String → ℕ → KeyStore
  init keys m = record { m = m; d = sorted (map (λ key. (hash_mod key m, key)) keys) }

  abbrev pub get_hash : KeyStore → String → ℕ
  get_hash s key = hash_mod key s.m

  unfoldable pub get_index_by_key : KeyStore → String → Bool → Result ℤ
  get_index_by_key s key key_add = do
    let key_hash = get_hash s key
    first ← at s.d (pos 0)
    if ltb key_hash first.0
        then ok (if key_add then negsuc 0 else pos (length s.d - 1))
        else (bin_search (length s.d) s.d key_hash 0 (length s.d - 1) >>= λ i. ok (pos i))

  unfoldable pub get_closest_key : KeyStore → String → Result String
  get_closest_key s key = do index ← get_index_by_key s key false; el ← at s.d index; ok el.1

  unfoldable pub add_key : KeyStore → String → Result KeyStore
  add_key s key = do
    index ← get_index_by_key s key true
    ok (record s { d = insert_at (add_one index) (get_hash s key, key) s.d })

  unfoldable pub remove_key : KeyStore → String → Result KeyStore
  remove_key s key = do
    index ← get_index_by_key s key false
    el ← at s.d index
    if el == (get_hash s key, key)
        then (remove_first (get_hash s key, key) s.d >>= λ d. ok (record s { d = d }))
        else ok s

  -- Whether an entry stays with `from_key`. The last node is looked up only when the first test
  -- fails.
  unfoldable pub stays : KeyStore → String → String → ℕ → Result Bool
  stays s from_key split_key key_hash =
      if leb (get_hash s from_key) key_hash && ltb key_hash (get_hash s split_key)
      then ok true
      else (at s.d (negsuc 0) >>= λ last. ok (
          from_key == last.1
          && (leb (get_hash s from_key) key_hash || ltb key_hash (get_hash s split_key))))

  -- The loop over the data, which fills `l` and `r`.
  unfoldable pub split_loop :
      KeyStore
      → String
      → String
      → List (String × String)
      → List (String × String) × List (String × String)
      → Result (List (String × String) × List (String × String))
  split_loop s from_key split_key [] (l, r) = ok (l, r)
  split_loop s from_key split_key ((key, value) ∷ data_items) (l, r) = do
    left ← stays s from_key split_key (get_hash s key)
    split_loop s from_key split_key data_items
        (if left then (Dict.insert key value l, r) else (l, Dict.insert key value r))

  unfoldable pub split_by_key :
      KeyStore
      → List (String × String)
      → String
      → String
      → Result (List (String × String) × List (String × String))
  split_by_key s data_ from_key split_key = split_loop s from_key split_key data_ ([], [])
