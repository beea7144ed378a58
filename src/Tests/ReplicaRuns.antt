-- ===== src/Tests/ReplicaRuns.antt =====
-- StorageNode of 09-kv-replication-v2 and the replicas of a key at concrete inputs.
use distsys_course_work.Prelude.{ℕ, ◌<◌, ◌≡◌, ◌≢◌, refl, String, some, [], ◌∷◌, arith, text_eq}
use distsys_course_work.Prelude.Dict
use distsys_course_work.Runtime.{ok, fresh, send_local}
use distsys_course_work.Gossip.{str_from}
use distsys_course_work.Replication
use distsys_course_work.Replication.{
  StorageNode, Request, get, put, Response, response, get_next_replica, get_key_replicas,
}
use distsys_course_work.Replication.Replicas.{replicas_distinct}

abbrev five : String → ℕ
five key = 5

wraps : get_key_replicas five "k" 6 ≡ ok (5 ∷ 0 ∷ 1 ∷ [])
unfolding get_key_replicas Replication.replicas_from get_next_replica
wraps = refl

names : Replication.get_key_replica_names five "k" 6 ≡ ok ("5" ∷ "0" ∷ "1" ∷ [])
unfolding Replication.get_key_replica_names get_key_replicas Replication.replicas_from
    get_next_replica str_from
names = refl

abbrev node : StorageNode
node = record { id = "0"; nodes = "0" ∷ "1" ∷ "2" ∷ []; data_ = ("k", "v") ∷ [] }

get_answers :
    Replication.on_local_message five node (record { type = "GET"; body = get "k" }) (fresh 2)
    ≡ ok (
      node,
      record {
        time = 2;
        sent = [];
        sent_local = response "GET_RESP" "k" ("v" ∷ []) (some "todo") ∷ [];
        timer_actions = [];
      },
    )
unfolding Replication.on_local_message get_key_replicas send_local Dict.lookup
get_answers = refl

replicas_distinct_example :
    (a b c : ℕ) × (get_key_replicas five "k" 6 ≡ ok (a ∷ b ∷ c ∷ []))
    × (a < 6)
    × (b < 6)
    × (c < 6)
    × (b ≡ get_next_replica a 6)
    × (c ≡ get_next_replica b 6)
    × (a ≢ b)
    × (b ≢ c)
    × (a ≢ c)
replicas_distinct_example = replicas_distinct five "k" 6 (omega arith)
