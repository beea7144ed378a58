-- ===== src/KvProxy/ShardingProxy.antt =====
-- kv/proxy/strategies.py: ShardingProxy. `sha256 key` is int(sha256(key).hexdigest(), 16).
use distsys_course_work.Prelude.{
  ℕ, ◌%◌, String, Option, none, some, List, map, length, get_elem?, nat_eq, text_eq, ◌==◌,
  if◌then◌else◌,
}
use distsys_course_work.Prelude.Dict
use distsys_course_work.Runtime.{Error, Result, ok, raise, index_error, key_error, ◌>>=◌}
use distsys_course_work.KvProxy.Http.{Http, Answer, answer, content, no_nodes}

abbrev pub or_raise {ℓ} : {A : Type ℓ} → Error → Option A → Result A
or_raise e none = raise e
or_raise e (some a) = ok a

module _ {W : Type 0} (http : Http W) (sha256 : String → ℕ) (nodes : List (String × String)) where
  -- The url of the node, or none.
  unfoldable pub get_node : String → Result (Option String)
  get_node key =
      if length nodes == 0
      then ok none
      else (or_raise index_error (get_elem? (map (λ n. n.0) nodes) (sha256 key % length nodes))
          >>= λ name. or_raise key_error (Dict.lookup name nodes) >>= λ url. ok (some url))

  unfoldable pub put : String → String → W → Result (Answer × W)
  put key value w = get_node key >>= λ node. elim node [
    | none ↦ ok (answer no_nodes 500, w)
    | some url ↦ http.post url key value w >>= λ (response, w').
        ok (answer (content response.content) response.status_code, w')
  ]

  unfoldable pub get : String → W → Result Answer
  get key w = get_node key >>= λ node. elim node [
    | none ↦ ok (answer no_nodes 500)
    | some url ↦ http.get url key w >>= λ response.
        ok (answer (content response.content) response.status_code)
  ]
