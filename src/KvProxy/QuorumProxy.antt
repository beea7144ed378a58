-- ===== src/KvProxy/QuorumProxy.antt =====
-- kv/proxy/strategies.py: ReplicatingQuorumProxy. `json` is response.json(), `json_value` is
-- json.loads(content)['value'].
pub mod Counting
pub mod Majority
use distsys_course_work.Prelude.{
  ℕ, suc, ◌+◌, ◌*◌, ◌≡◌, String, Bool, true, false, Option, none, some, List, [], ◌∷◌, ◌++◌, nat_eq,
  ◌==◌, if◌then◌else◌, text_eq, length, ltb,
}
use distsys_course_work.Prelude.Dict
use distsys_course_work.Runtime.{Result, ok, raise, ◌>>=◌}
use distsys_course_work.KvProxy.Http.{
  Http, Response, Answer, answer, Body, content, no_nodes, none_responded, no_write_quorum,
  no_read_quorum,
}
use distsys_course_work.KvProxy.ReplicatingProxy.{post_all}

-- values[content] += 1, on a defaultdict of zeros
unfoldable pub count_up : String → List (String × ℕ) → List (String × ℕ)
count_up c values = elim (Dict.lookup c values) [
  | none ↦ Dict.insert c 1 values
  | some n ↦ Dict.insert c (n + 1) values
]

-- The first value with more than half of the nodes.
unfoldable pub find_quorum : ℕ → List (String × ℕ) → Option String
find_quorum node_count [] = none
find_quorum node_count ((c, cnt) ∷ values) =
    let rest = find_quorum node_count values in if ltb node_count (2 * cnt) then some c else rest

module _ {W : Type 0} (http : Http W) (json json_value : String → Result String)
    (nodes : List (String × String)) where
  unfoldable pub put : String → String → W → Result (Answer × W)
  put key value w = post_all http nodes key value [] w >>= λ (responses, w'). elim responses [
    | [] ↦ ok (answer no_nodes 500, w')
    | first ∷ others ↦
        if ltb (length nodes) (2 * suc (length others))
        then ok (answer (content first) 200, w')
        else ok (answer (no_write_quorum (first ∷ others)) 300, w')
  ]

  -- The loop over the nodes: how often each content came with status 200, and the other responses.
  unfoldable pub ask_all :
      List (String × String)
      → String
      → List (String × ℕ)
      → List (String × String)
      → W
      → Result (List (String × ℕ) × List (String × String))
  ask_all [] key values non_ok_responses w = ok (values, non_ok_responses)
  ask_all ((name, url) ∷ rest) key values non_ok_responses w = http.get url key w >>= λ response.
      elim (response.status_code == 200) [
        | true ↦ ask_all rest key (count_up response.content values) non_ok_responses w
        | false ↦ json response.content >>= λ body.
            ask_all rest key values (Dict.insert name body non_ok_responses) w
      ]

  unfoldable pub values_for_response : List (String × ℕ) → Result (List (String × ℕ))
  values_for_response [] = ok []
  values_for_response ((c, cnt) ∷ values) =
      json_value c >>= λ v. values_for_response values >>= λ rest. ok ((v, cnt) ∷ rest)

  -- The answers when no value has a quorum.
  unfoldable pub no_quorum : List (String × ℕ) → List (String × String) → Result Answer
  no_quorum [] non_ok_responses = ok (answer (none_responded non_ok_responses) 500)
  no_quorum (v ∷ values) non_ok_responses =
      values_for_response (v ∷ values) >>= λ shown. ok (answer (no_read_quorum shown) 300)

  unfoldable pub get : String → W → Result Answer
  get key w = ask_all nodes key [] [] w >>= λ (values, non_ok_responses).
      elim (find_quorum (length nodes) values) [
        | some c ↦ ok (answer (content c) 200)
        | none ↦ no_quorum values non_ok_responses
      ]
