-- ===== src/KvProxy/Storage.antt =====
-- kv/storage/main.py: a node, which keeps a dict. The page of /state and the text of /health are
-- left out.
use distsys_course_work.Prelude.{ℕ, String, Option, none, some, List, text_eq}
use distsys_course_work.Prelude.Dict

-- The bodies of its answers.
pub data NodeBody : Type 0 where
  provide_key_and_value : NodeBody
  provide_key : NodeBody
  stored_on_node : NodeBody
  not_found : String → NodeBody
  found : String → NodeBody

pub record NodeAnswer : Type 0 where
  pub body : NodeBody
  pub status : ℕ

abbrev pub node_answer : NodeBody → ℕ → NodeAnswer
node_answer body status = record { body = body; status = status }

unfoldable pub put_handler :
    Option String → Option String → List (String × String) → NodeAnswer × List (String × String)
put_handler none value data_ = (node_answer provide_key_and_value 400, data_)
put_handler (some key) none data_ = (node_answer provide_key_and_value 400, data_)
put_handler (some key) (some value) data_ =
    (node_answer stored_on_node 200, Dict.insert key value data_)

unfoldable pub get_handler : Option String → List (String × String) → NodeAnswer
get_handler none data_ = node_answer provide_key 400
get_handler (some key) data_ = elim (Dict.lookup key data_) [
  | none ↦ node_answer (not_found key) 404
  | some value ↦ node_answer (found value) 200
]
