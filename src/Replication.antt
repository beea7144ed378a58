-- ===== src/Replication.antt =====
-- homework/09-kv-replication-v2/solution.py: StorageNode, and the replicas of a key, which
-- homework/08-kv-replication/solution.py has too, as texts. The number that md5 gives for a key is a
-- parameter. A context is the text `todo`; a message of any other type is left out.
pub mod Replicas
use distsys_course_work.Prelude.{
  ℕ, zero, suc, ◌+◌, ◌%◌, String, Option, none, some, List, [], ◌∷◌, map, length, text_eq,
}
use distsys_course_work.Prelude.Dict
use distsys_course_work.Runtime.{
  Message, Context, Result, ok, raise, zero_division_error, ◌>>=◌, send_local, Process,
}
use distsys_course_work.Gossip.{str}

-- (i + 1) % node_count, of a count that is not 0
unfoldable pub get_next_replica : ℕ → ℕ → ℕ
get_next_replica i node_count = (i + 1) % node_count

-- The loop: `n` replicas from `cur` on.
unfoldable pub replicas_from : ℕ → ℕ → ℕ → List ℕ
unfolding get_next_replica
replicas_from zero cur node_count = []
replicas_from (suc n) cur node_count =
    cur ∷ replicas_from n (get_next_replica cur node_count) node_count

pub record StorageNode : Type 0 where
  pub id : String
  pub nodes : List String
  pub data_ : List (String × String)

abbrev pub init : String → List String → StorageNode
init node_id nodes = record { id = node_id; nodes = nodes; data_ = [] }

-- The key, the value and the context; the quorum is not read.
pub data Request : Type 0 where
  get : String → Request
  put : String → String → Option String → Request

-- The key, the values and the context of GET_RESP and PUT_RESP.
pub record Response : Type 0 where
  pub key : String
  pub values : List String
  pub context : Option String

abbrev pub response : String → String → List String → Option String → Message Response
response type key values context = record {
  type = type;
  body = record { key = key; values = values; context = context };
}

module _ (md5 : String → ℕ) where
  unfoldable pub get_key_replicas : String → ℕ → Result (List ℕ)
  unfolding replicas_from
  get_key_replicas key zero = raise zero_division_error
  get_key_replicas key (suc n) = ok (replicas_from 3 (md5 key % suc n) (suc n))

  -- The same of 08-kv-replication, where a replica is named by a text.
  unfoldable pub get_key_replica_names : String → ℕ → Result (List String)
  unfolding get_key_replicas
  get_key_replica_names key n = get_key_replicas key n >>= λ replicas. ok (map str replicas)

  unfoldable pub on_local_message :
      StorageNode
      → Message Request
      → Context Response Response String
      → Result (StorageNode × Context Response Response String)
  unfolding get_key_replicas send_local
  on_local_message self msg ctx = elim msg.body [
    | get key ↦ get_key_replicas key (length self.nodes) >>= λ printed.
        send_local
          (elim (Dict.lookup key self.data_) [
            | some value ↦ response "GET_RESP" key (value ∷ []) (some "todo")
            | none ↦ response "GET_RESP" key [] none
          ])
          ctx
        >>= λ told. ok (self, told)
    | put key value context ↦
        send_local (response "PUT_RESP" key (value ∷ []) (some "todo")) ctx >>= λ told.
        ok (record self { data_ = Dict.insert key value self.data_ }, told)
  ]

  abbrev pub process : Process StorageNode Request Response Response Response String
  process = record {
    on_local_message = on_local_message;
    on_message = λ self msg sender ctx. ok (self, ctx);
    on_timer = λ self name ctx. ok (self, ctx);
  }
