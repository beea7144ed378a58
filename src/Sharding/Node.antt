-- ===== src/Sharding/Node.antt =====
-- StorageNode: the requests of clients are sent to the node that KeyStore gives; the data moves when
-- the nodes change. The messages of each type that the class names are constructors of three types;
-- a message of any other type changes nothing and is left out.
pub mod Joining
use distsys_course_work.Prelude.{
  ℕ, String, Bool, true, false, Option, none, some, List, [], ◌∷◌, map, length, ◌==◌, text_eq,
  if◌then◌else◌,
}
use distsys_course_work.Prelude.Dict
use distsys_course_work.Runtime.{Message, Context, Result, ok, ◌>>=◌, send, send_local, Process}
use distsys_course_work.Sharding.KeyStore.{
  KeyStore, get_closest_key, add_key, remove_key, split_by_key,
}
use distsys_course_work.Sharding.KeyStore as Store

-- GET, PUT and DELETE.
pub data Request : Type 0 where
  get : String → Request
  put : String → String → Request
  delete : String → Request

-- msg["key"]
abbrev pub key_of : Request → String
key_of (get key) = key
key_of (put key value) = key
key_of (delete key) = key

-- What nodes send to nodes: requests, the responses to them, and UPDATE.
pub data Packet : Type 0 where
  request : Request → Packet
  get_resp : String → Option String → Packet
  put_resp : String → String → Packet
  delete_resp : String → Option String → Packet
  update : List (String × String) → Packet

-- What a user sends, and what a user is told.
pub data Command : Type 0 where
  ask : Request → Command
  node_added : String → Command
  node_removed : String → Command
  count_records : Command
  dump_keys : Command

pub data Reply : Type 0 where
  response : Packet → Reply
  count_records_resp : ℕ → Reply
  dump_keys_resp : List String → Reply

pub record StorageNode : Type 0 where
  pub id : String
  pub nodes : KeyStore
  pub data_ : List (String × String)

-- d.update(other)
unfoldable pub update_all : List (String × String) → List (String × String) → List (String × String)
update_all d [] = d
update_all d ((key, value) ∷ other) = update_all (Dict.insert key value d) other

abbrev pub message : {D : Type 0} → String → D → Message D
message type body = record { type = type; body = body }

module _ (hash_mod : String → ℕ → ℕ) where
  abbrev pub init : String → List String → StorageNode
  init node_id nodes = record {
    id = node_id;
    nodes = Store.init hash_mod nodes 10000007;
    data_ = [];
  }

  unfoldable pub on_node_added :
      StorageNode
      → String
      → Context Packet Reply String
      → Result (StorageNode × Context Packet Reply String)
  on_node_added s add_id ctx = do
    prev_add_id ← get_closest_key hash_mod s.nodes add_id
    nodes ← add_key hash_mod s.nodes add_id
    if s.id == prev_add_id
        then (split_by_key hash_mod nodes s.data_ s.id add_id >>= λ (kept, given).
            send (message "UPDATE" (update given)) add_id ctx >>= λ sent.
            ok (record s { nodes = nodes; data_ = kept }, sent))
        else ok (record s { nodes = nodes }, ctx)

  unfoldable pub on_local_message :
      StorageNode
      → Message Command
      → Context Packet Reply String
      → Result (StorageNode × Context Packet Reply String)
  on_local_message s msg ctx = elim msg.body [
    | ask r ↦ get_closest_key hash_mod s.nodes (key_of r) >>= λ reciever.
        send (message msg.type (request r)) reciever ctx >>= λ sent. ok (s, sent)
    | node_added add_id ↦ if s.id == add_id then ok (s, ctx) else on_node_added s add_id ctx
    | node_removed remove_id ↦ remove_key hash_mod s.nodes remove_id >>= λ nodes.
        if s.id == remove_id
        then (get_closest_key hash_mod nodes remove_id >>= λ next.
            send (message "UPDATE" (update s.data_)) next ctx >>= λ sent.
            ok (record s { nodes = nodes }, sent))
        else ok (record s { nodes = nodes }, ctx)
    | count_records ↦
        send_local (message "COUNT_RECORDS_RESP" (count_records_resp (length s.data_))) ctx
        >>= λ told. ok (s, told)
    | dump_keys ↦
        send_local (message "DUMP_KEYS_RESP" (dump_keys_resp (map (λ e. e.0) s.data_))) ctx
        >>= λ told. ok (s, told)
  ]

  unfoldable pub on_message :
      StorageNode
      → Message Packet
      → String
      → Context Packet Reply String
      → Result (StorageNode × Context Packet Reply String)
  on_message s msg sender ctx = elim msg.body [
    | request r ↦ elim r [
      | get key ↦
          send (message "GET_RESP" (get_resp key (Dict.lookup key s.data_))) sender ctx >>= λ sent.
          ok (s, sent)
      | put key value ↦ send (message "PUT_RESP" (put_resp key value)) sender ctx >>= λ sent.
          ok (record s { data_ = Dict.insert key value s.data_ }, sent)
      | delete key ↦
          send (message "DELETE_RESP" (delete_resp key (Dict.lookup key s.data_))) sender ctx
          >>= λ sent. ok (record s { data_ = Dict.remove key s.data_ }, sent)
    ]
    | get_resp key value ↦
        send_local (message msg.type (response msg.body)) ctx >>= λ told. ok (s, told)
    | put_resp key value ↦
        send_local (message msg.type (response msg.body)) ctx >>= λ told. ok (s, told)
    | delete_resp key value ↦
        send_local (message msg.type (response msg.body)) ctx >>= λ told. ok (s, told)
    | update data_ ↦ ok (record s { data_ = update_all s.data_ data_ }, ctx)
  ]

  abbrev pub node : Process StorageNode Command Packet Packet Reply String
  node = record {
    on_local_message = on_local_message;
    on_message = on_message;
    on_timer = λ s timer_name ctx. ok (s, ctx);
  }
