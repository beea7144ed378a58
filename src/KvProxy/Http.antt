-- ===== src/KvProxy/Http.antt =====
-- What the proxies ask of `requests` and what they answer. A request goes to a node's url, for a key
-- that the query string carries unchanged; the world `W` is whatever the nodes keep.
use distsys_course_work.Prelude.{ℕ, String, List}
use distsys_course_work.Runtime.{Result}

pub record Response : Type 0 where
  pub status_code : ℕ
  pub content : String

-- requests.post(f'{url}/put?key={key}', json={'value': value}), requests.get(f'{url}/get?key={key}')
pub record Http (W : Type 0) : Type 0 where
  pub post : String → String → String → W → Result (Response × W)
  pub get : String → String → W → Result Response

-- The bodies of the answers, one for each text in the source.
pub data Body : Type 0 where
  content : String → Body
  stored : Body
  value : String → Body
  no_nodes : Body
  none_responded : List (String × String) → Body
  no_write_quorum : List String → Body
  no_read_quorum : List (String × ℕ) → Body
  small_body : ℕ → Body
  write_error : String → Body
  too_many_errors : String → Body

-- What a handler returns to Flask: the body and the status.
pub record Answer : Type 0 where
  pub body : Body
  pub status : ℕ

abbrev pub answer : Body → ℕ → Answer
answer body status = record { body = body; status = status }
