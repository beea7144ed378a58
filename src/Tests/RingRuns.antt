-- ===== src/Tests/RingRuns.antt =====
-- A ring of three nodes, a fourth that joins, and the theorems there.
use Prim.Native.String.{count}
use distsys_course_work.Prelude.{
  ℕ, ◌*◌, ◌%◌, ◌≤◌, ◌<◌, ◌≡◌, ◌⊎◌, refl, subst, inl, inr, true, false, Bool-cases, String, List, [],
  ◌∷◌, arith, text_eq, ◌==◌, none, some, some-injective, zero, suc, get_elem?,
}
use distsys_course_work.Prelude.Dict
use distsys_course_work.Runtime.{ok}
use distsys_course_work.Sharding.KeyStore.{
  KeyStore, init, get_closest_key, get_index_by_key, add_key, remove_key, split_by_key, split_loop,
  stays, bin_search,
}
use distsys_course_work.Sharding.KeyStore.Ring.{Cut, owner}
use distsys_course_work.Sharding.KeyStore.Search.{bin_search-Cut}
use distsys_course_work.Sharding.KeyStore.Closest.{owner_name, get_closest_key-owner}
use distsys_course_work.Sharding.KeyStore.Rings.{IsRing, init-IsRing, closest_after_joining}
use distsys_course_work.Sharding.KeyStore.Partition.{split_by_new_owner}
use distsys_course_work.Runtime.{fresh}
use distsys_course_work.Sharding.Node.{
  StorageNode, update, node_added, request, get, put, get_resp, put_resp, message, on_local_message,
  on_message,
}
use distsys_course_work.Sharding.Node.Joining.{joining_moves_data, get_after_put}

abbrev hash_mod : String → ℕ → ℕ
hash_mod key m = (count key * 10) % m

abbrev names : List String
names = "ccccc" ∷ "a" ∷ "bbb" ∷ []

abbrev store : KeyStore
store = record { m = 10000007; d = (10, "a") ∷ (30, "bbb") ∷ (50, "ccccc") ∷ [] }

store_made : init hash_mod names 10000007 ≡ store
unfolding init
store_made = refl

-- A key before every node is found at the last one.
wraps : get_closest_key hash_mod store "" ≡ ok "ccccc"
unfolding get_closest_key get_index_by_key bin_search
wraps = refl

removed :
    remove_key hash_mod store "bbb"
    ≡ ok (record { m = 10000007; d = (10, "a") ∷ (50, "ccccc") ∷ [] })
unfolding remove_key get_index_by_key bin_search
removed = refl

-- Of two nodes at one hash the first one is not removed.
not_removed :
    remove_key hash_mod (record { m = 7; d = (1, "a") ∷ (3, "b") ∷ (3, "c") ∷ [] }) "b"
    ≡ ok (record { m = 7; d = (1, "a") ∷ (3, "b") ∷ (3, "c") ∷ [] })
unfolding remove_key get_index_by_key bin_search
not_removed = refl

store-IsRing : IsRing hash_mod store
store-IsRing = subst (IsRing hash_mod) store_made (init-IsRing hash_mod names 10000007)

init-IsRing_example : IsRing hash_mod (init hash_mod names 10000007)
init-IsRing_example = init-IsRing hash_mod names 10000007

abbrev data_ : List (String × String)
data_ = ("xxx", "1") ∷ ("yyyy", "2") ∷ []

data_split :
    split_by_key hash_mod
      (record { m = 10000007; d = (10, "a") ∷ (30, "bbb") ∷ (40, "dddd") ∷ (50, "ccccc") ∷ [] })
      data_
      "bbb"
      "dddd"
    ≡ ok (("xxx", "1") ∷ [], ("yyyy", "2") ∷ [])
unfolding split_by_key split_loop stays Dict.insert
data_split = refl

closest_xxx : get_closest_key hash_mod store "xxx" ≡ ok "bbb"
unfolding get_closest_key get_index_by_key bin_search
closest_xxx = refl

closest_yyyy : get_closest_key hash_mod store "yyyy" ≡ ok "bbb"
unfolding get_closest_key get_index_by_key bin_search
closest_yyyy = refl

closest_dddd : get_closest_key hash_mod store "dddd" ≡ ok "bbb"
unfolding get_closest_key get_index_by_key bin_search
closest_dddd = refl

data_owned :
    (key : String) → Dict.has key data_ ≡ true → get_closest_key hash_mod store key ≡ ok "bbb"
unfolding Dict.has
data_owned key present = elim (Bool-cases ("xxx" == key)) [
  | inl first ↦
      subst (λ k. get_closest_key hash_mod store k ≡ ok "bbb")
        ((text_eq.same_iff "xxx" key).0 first) closest_xxx
  | inr later ↦
      subst (λ k. get_closest_key hash_mod store k ≡ ok "bbb")
        ((text_eq.same_iff "yyyy" key).0 (ground (arith, present, later))) closest_yyyy
]

data_-IsDict : Dict.IsDict data_
unfolding Dict.has
data_-IsDict = (refl, (refl, tt))

split_by_new_owner_example :
    (s' : KeyStore) × (kept given : List (String × String)) × (add_key hash_mod store "dddd"
      ≡ ok s')
    × (split_by_key hash_mod s' data_ "bbb" "dddd" ≡ ok (kept, given))
    × ((key : String)
        → ((get_closest_key hash_mod s' key ≡ ok "bbb")
            × (Dict.lookup key kept ≡ Dict.lookup key data_)
            × (Dict.lookup key given ≡ none))
          ⊎ ((get_closest_key hash_mod s' key ≡ ok "dddd")
              × (Dict.lookup key kept ≡ none)
              × (Dict.lookup key given ≡ Dict.lookup key data_))
          ⊎ (Dict.has key data_ ≡ false)
            × (Dict.lookup key kept ≡ none)
            × (Dict.lookup key given ≡ none))
split_by_new_owner_example =
    split_by_new_owner hash_mod store store-IsRing "bbb" "dddd" refl data_ data_-IsDict closest_dddd
      data_owned

closest_after_joining_example :
    (s' : KeyStore) × (add_key hash_mod store "dddd" ≡ ok s')
    × IsRing hash_mod s'
    × ((key : String)
        → (get_closest_key hash_mod s' key ≡ get_closest_key hash_mod store key)
          ⊎ ((get_closest_key hash_mod s' key ≡ ok "dddd")
              × (get_closest_key hash_mod store key ≡ get_closest_key hash_mod store "dddd")))
closest_after_joining_example =
    closest_after_joining hash_mod store store-IsRing (omega arith) "dddd"

get_closest_key-owner_example :
    get_closest_key hash_mod store "yyyy" ≡ owner_name (owner (hash_mod "yyyy" 10000007) store.d)
get_closest_key-owner_example = get_closest_key-owner hash_mod store store-IsRing.ordered "yyyy"

nodes_low : (j : ℕ) (a : ℕ × String) → j ≤ 0 → get_elem? store.d j ≡ some a → a.0 ≤ 40
nodes_low zero a le e = subst (λ x. x.0 ≤ 40) (some-injective _ _ e) (omega arith)
nodes_low (suc j) a le e = absurd (omega arith)

nodes_high : (j : ℕ) (a : ℕ × String) → 2 < j → get_elem? store.d j ≡ some a → 40 < a.0
nodes_high zero a lt e = absurd (omega arith)
nodes_high (suc zero) a lt e = absurd (omega arith)
nodes_high (suc (suc zero)) a lt e = absurd (omega arith)
nodes_high (suc (suc (suc j))) a lt e = cc

-- Three nodes are searched in three calls.
bin_search-Cut_example :
    (i : ℕ) × (bin_search 3 store.d 40 0 2 ≡ ok i) × (i < 3) × Cut 40 (suc i) store.d
bin_search-Cut_example =
    bin_search-Cut store.d 40 store-IsRing.ordered 2 0 2 (omega arith) (omega arith) (omega arith)
      nodes_low nodes_high

abbrev bbb_node : StorageNode
bbb_node = record { id = "bbb"; nodes = store; data_ = data_ }

joining_moves_data_example :
    (s' : StorageNode) × (given : List (String × String)) × (on_local_message hash_mod bbb_node
        (message "NODE_ADDED" (node_added "dddd"))
        (fresh 7)
      ≡ ok (
        s',
        record {
          time = 7;
          sent = (message "UPDATE" (update given), "dddd") ∷ [];
          sent_local = [];
          timer_actions = [];
        },
      ))
    × ((key : String)
        → ((get_closest_key hash_mod s'.nodes key ≡ ok "bbb")
            × (Dict.lookup key s'.data_ ≡ Dict.lookup key data_)
            × (Dict.lookup key given ≡ none))
          ⊎ ((get_closest_key hash_mod s'.nodes key ≡ ok "dddd")
              × (Dict.lookup key s'.data_ ≡ none)
              × (Dict.lookup key given ≡ Dict.lookup key data_))
          ⊎ (Dict.has key data_ ≡ false)
            × (Dict.lookup key s'.data_ ≡ none)
            × (Dict.lookup key given ≡ none))
joining_moves_data_example =
    joining_moves_data hash_mod bbb_node "dddd" 7 store-IsRing refl data_-IsDict closest_dddd
      data_owned

get_after_put_example :
    (s' : StorageNode) × (on_message hash_mod bbb_node
        (message "PUT" (request (put "xxx" "9")))
        "a"
        (fresh 7)
      ≡ ok (
        s',
        record {
          time = 7;
          sent = (message "PUT_RESP" (put_resp "xxx" "9"), "a") ∷ [];
          sent_local = [];
          timer_actions = [];
        },
      ))
    × (on_message hash_mod s' (message "GET" (request (get "xxx"))) "a" (fresh 7)
        ≡ ok (
          s',
          record {
            time = 7;
            sent = (message "GET_RESP" (get_resp "xxx" (some "9")), "a") ∷ [];
            sent_local = [];
            timer_actions = [];
          },
        ))
get_after_put_example = get_after_put hash_mod bbb_node "xxx" "9" "xxx" "a" 7
