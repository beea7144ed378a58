-- ===== src/KvProxy/Cluster.antt =====
-- The proxies' requests answered by storage nodes: each url has a node, or nothing that answers.
-- `jsonify` is what a node's answer becomes as a text.
use distsys_course_work.Prelude.{
  ◌≡◌, ◌≢◌, refl, sym, ap, ◌∙◌, String, Option, none, some, Option-cases, Bool-cases, inl, inr,
  List, text_eq, ◌==◌, same_refl, if◌then◌else◌,
}
use distsys_course_work.Prelude.Dict
use distsys_course_work.Runtime.{Result, ok, raise, connection_error, ok-injective}
use distsys_course_work.KvProxy.Http.{Http, Response}
use distsys_course_work.KvProxy.Storage.{
  NodeBody, NodeAnswer, node_answer, stored_on_node, found, put_handler, get_handler,
}
use distsys_course_work.KvProxy.Raid3Proxy.Writing.{Keeps}

abbrev pub Nodes : Type 0
Nodes = String → Option (List (String × String))

module _ (jsonify : NodeBody → String) where
  abbrev pub response_of : NodeAnswer → Response
  response_of a = record { status_code = a.status; content = jsonify a.body }

  unfoldable pub cluster_post : String → String → String → Nodes → Result (Response × Nodes)
  cluster_post url key value w = elim (w url) [
    | none ↦ raise connection_error
    | some data_ ↦
        let (a, after) = put_handler (some key) (some value) data_ in
        ok (response_of a, λ other. if url == other then some after else w other)
  ]

  unfoldable pub cluster_get : String → String → Nodes → Result Response
  cluster_get url key w = elim (w url) [
    | none ↦ raise connection_error
    | some data_ ↦ ok (response_of (get_handler (some key) data_))
  ]

  abbrev pub cluster : Http Nodes
  cluster = record { post = cluster_post; get = cluster_get }

  -- The nodes after a POST that a node has taken.
  abbrev after_post : String → String → String → List (String × String) → Nodes → Nodes
  after_post url key text d w other =
      if url == other then some (Dict.insert key text d) else w other

  post_up :
      (url key text : String) (w : Nodes) (d : List (String × String))
      → w url ≡ some d
      → cluster_post url key text w
        ≡ ok (response_of (node_answer stored_on_node 200), after_post url key text d w)
  unfolding cluster_post put_handler
  post_up url key text w d up = rw (cluster_post, up) refl

  post_down :
      (url key text : String) (w : Nodes)
      → w url ≡ none
      → cluster_post url key text w ≡ raise connection_error
  unfolding cluster_post
  post_down url key text w down = rw (cluster_post, down) refl

  post_result :
      (url key text : String) (w w' : Nodes) (r : Response)
      → cluster_post url key text w ≡ ok (r, w')
      → (d : List (String × String)) × (after_post url key text d w ≡ w')
  post_result url key text w w' r e = elim (Option-cases (w url)) [
    | inl down ↦ absurd (not_ok (sym (post_down url key text w down) ∙ e))
    | inr (d, up) ↦ (d, ap (λ p. p.1) (ok-injective (sym (post_up url key text w d up) ∙ e)))
  ]
    where
      not_ok : ¬ ◌≡◌ {A = Result (Response × Nodes)} (raise connection_error) (ok (r, w'))
      not_ok h = cc

  cluster_get-found :
      (url key text : String) (w : Nodes) (d : List (String × String))
      → w url ≡ some d
      → Dict.lookup key d ≡ some text
      → cluster_get url key w ≡ ok (record { status_code = 200; content = jsonify (found text) })
  unfolding cluster_get get_handler
  cluster_get-found url key text w d up there = rw (cluster_get, up, get_handler, there) refl

  cluster_get-same :
      (url key : String) (w w' : Nodes)
      → w' url ≡ w url
      → cluster_get url key w' ≡ cluster_get url key w
  unfolding cluster_get
  cluster_get-same url key w w' e = rw (cluster_get, e) refl

  -- The storage nodes keep what they answered 200 to.
  pub cluster-Keeps :
      (json_value : String → Result String)
      → ((text : String) → json_value (jsonify (found text)) ≡ ok text)
      → (key : String) → Keeps cluster json_value key
  cluster-Keeps json_value law key = record {
    kept = λ url text w w' r e status.
        let (d, after) = post_result url key text w w' r e in
        (
          jsonify (found text),
          cluster_get-found url key text w' (Dict.insert key text d)
              (sym (ap (λ (v : Nodes). v url) after) ∙ at_url url text d w)
              (Dict.lookup-insert key key text d ∙ at_key text (Dict.lookup key d)),
          law text,
        );
    apart = λ url other text w w' r differ e.
        let (d, after) = post_result url key text w w' r e in
        cluster_get-same other key w w'
          (sym (ap (λ (v : Nodes). v other) after) ∙ elsewhere url other text d w differ);
  }
    where
      at_url :
          (url text : String) (d : List (String × String)) (w : Nodes)
          → after_post url key text d w url ≡ some (Dict.insert key text d)
      at_url url text d w = rw (same_refl text_eq url, if◌then◌else◌) refl

      at_key :
          (text : String) (old : Option String)
          → (if key == key then some text else old) ≡ some text
      at_key text old = rw (same_refl text_eq key, if◌then◌else◌) refl

      elsewhere :
          (url other text : String) (d : List (String × String)) (w : Nodes)
          → url ≢ other
          → after_post url key text d w other ≡ w other
      elsewhere url other text d w differ = elim (Bool-cases (url == other)) [
        | inl same ↦ absurd (differ ((text_eq.same_iff url other).0 same))
        | inr no_match ↦ rw (no_match, if◌then◌else◌) refl
      ]
