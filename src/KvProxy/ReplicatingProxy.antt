-- ===== src/KvProxy/ReplicatingProxy.antt =====
-- kv/proxy/strategies.py: ReplicatingProxy. `json` is response.json().
use distsys_course_work.Prelude.{
  String, true, false, List, [], ◌∷◌, ◌++◌, nat_eq, ◌==◌, if◌then◌else◌, text_eq,
}
use distsys_course_work.Prelude.Dict
use distsys_course_work.Runtime.{Result, ok, ◌>>=◌}
use distsys_course_work.KvProxy.Http.{Http, Answer, answer, content, no_nodes, none_responded}

module _ {W : Type 0} (http : Http W) where
  -- The loop over the nodes: the contents of the answers with status 200.
  unfoldable pub post_all :
      List (String × String) → String → String → List String → W → Result (List String × W)
  post_all [] key value responses w = ok (responses, w)
  post_all ((name, url) ∷ nodes) key value responses w =
      http.post url key value w >>= λ (response, w').
      post_all nodes key value
        (if response.status_code == 200 then responses ++ response.content ∷ [] else responses) w'

  unfoldable pub put : List (String × String) → String → String → W → Result (Answer × W)
  put nodes key value w = post_all nodes key value [] w >>= λ (responses, w'). elim responses [
    | [] ↦ ok (answer no_nodes 500, w')
    | first ∷ _ ↦ ok (answer (content first) 200, w')
  ]

  module _ (json : String → Result String) where
    unfoldable pub first_ok :
        List (String × String) → String → List (String × String) → W → Result Answer
    first_ok [] key non_ok_responses w = ok (answer (none_responded non_ok_responses) 500)
    first_ok ((name, url) ∷ nodes) key non_ok_responses w = http.get url key w >>= λ response.
        elim (response.status_code == 200) [
          | true ↦ ok (answer (content response.content) 200)
          | false ↦ json response.content >>= λ body.
              first_ok nodes key (Dict.insert name body non_ok_responses) w
        ]

    unfoldable pub get : List (String × String) → String → W → Result Answer
    get nodes key w = first_ok nodes key [] w
