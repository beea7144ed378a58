-- ===== src/Sharding/Node/Joining.antt =====
-- What StorageNode does with its data when a node joins, and with a request.
use distsys_course_work.Prelude.{
  ℕ, ◌≡◌, ◌⊎◌, refl, String, true, false, none, some, List, [], ◌∷◌, ◌==◌, text_eq, same_refl,
  if◌then◌else◌,
}
use distsys_course_work.Prelude.Dict
use distsys_course_work.Runtime.{fresh, ok, send}
use distsys_course_work.Sharding.KeyStore.{get_closest_key}
use distsys_course_work.Sharding.KeyStore.Rings.{IsRing}
use distsys_course_work.Sharding.KeyStore.Partition.{split_by_new_owner}
use distsys_course_work.Sharding.Node.{
  StorageNode, update, node_added, request, get, put, get_resp, put_resp, message, on_local_message,
  on_node_added, on_message,
}

module _ (hash_mod : String → ℕ → ℕ) where
  -- NODE_ADDED at the node at which the new name is found, on a ring, when the node has another name
  -- and every key of its data is found at it: the callback raises nothing, sends one UPDATE to the
  -- new node and nothing else, and of each entry: its key is still found at this node, which keeps
  -- it and does not send it, or its key is found at the new node, and the entry is sent and not kept;
  -- a key without an entry is neither kept nor sent.
  pub joining_moves_data :
      (s : StorageNode) (add_id : String) (time : ℕ)
      → IsRing hash_mod s.nodes
      → (s.id == add_id) ≡ false
      → Dict.IsDict s.data_
      → get_closest_key hash_mod s.nodes add_id ≡ ok s.id
      → ((key : String)
          → Dict.has key s.data_ ≡ true
          → get_closest_key hash_mod s.nodes key ≡ ok s.id)
      → (s' : StorageNode) × (given : List (String × String)) × (on_local_message hash_mod s
            (message "NODE_ADDED" (node_added add_id))
            (fresh time)
          ≡ ok (
            s',
            record {
              time = time;
              sent = (message "UPDATE" (update given), add_id) ∷ [];
              sent_local = [];
              timer_actions = [];
            },
          ))
        × ((key : String)
            → ((get_closest_key hash_mod s'.nodes key ≡ ok s.id)
                × (Dict.lookup key s'.data_ ≡ Dict.lookup key s.data_)
                × (Dict.lookup key given ≡ none))
              ⊎ ((get_closest_key hash_mod s'.nodes key ≡ ok add_id)
                  × (Dict.lookup key s'.data_ ≡ none)
                  × (Dict.lookup key given ≡ Dict.lookup key s.data_))
              ⊎ (Dict.has key s.data_ ≡ false)
                × (Dict.lookup key s'.data_ ≡ none)
                × (Dict.lookup key given ≡ none))
  unfolding on_local_message on_node_added send
  joining_moves_data s add_id time ring differ dict found owned =
      let (nodes, kept, given, adds, splits, parts) =
        split_by_new_owner hash_mod s.nodes ring s.id add_id differ s.data_ dict found owned in
      (
        record s { nodes = nodes; data_ = kept },
        given,
        rw (differ, if◌then◌else◌, found, adds, same_refl text_eq s.id, splits) refl,
        parts,
      )

  -- A PUT and a GET after it raise nothing, and the GET is answered with the value put
  -- when the keys are equal, and with what the node had at the key when they are not.
  pub get_after_put :
      (s : StorageNode) (key value other from : String) (time : ℕ)
      → (s' : StorageNode) × (on_message hash_mod s
            (message "PUT" (request (put key value)))
            from
            (fresh time)
          ≡ ok (
            s',
            record {
              time = time;
              sent = (message "PUT_RESP" (put_resp key value), from) ∷ [];
              sent_local = [];
              timer_actions = [];
            },
          ))
        × (on_message hash_mod s' (message "GET" (request (get other))) from (fresh time)
            ≡ ok (
              s',
              record {
                time = time;
                sent =
                    (
                      message "GET_RESP" (
                          get_resp other
                            (if key == other then some value else Dict.lookup other s.data_)),
                      from,
                    )
                    ∷ [];
                sent_local = [];
                timer_actions = [];
              },
            ))
  unfolding on_message send
  get_after_put s key value other from time = (
    record s { data_ = Dict.insert key value s.data_ },
    refl,
    rw (Dict.lookup-insert key other value s.data_) refl,
  )
