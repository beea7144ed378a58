-- ===== src/KvProxy/Raid3Proxy.antt =====
-- kv/proxy/strategies.py: RAID3Proxy. json and base64 are parameters, as is a text's UTF-8.
pub mod Reading
pub mod Writing
pub mod ReadAfterWrite
use Prim.Native.String.{count}
use distsys_course_work.Prelude.{
  ℕ, zero, suc, ◌+◌, ◌-◌, ◌≡◌, String, Bool, true, false, Option, none, some, List, [], ◌∷◌, ◌++◌,
  nat_eq, ◌==◌, if◌then◌else◌, length, ltb,
}
use distsys_course_work.Runtime.{Result, ok, raise, value_error, connection_error, ◌>>=◌}
use distsys_course_work.KvProxy.Http.{
  Http, Response, Answer, answer, Body, stored, value, small_body, write_error, too_many_errors,
}
use distsys_course_work.KvProxy.Raid3.{
  DataBlock, raid3_split, raid3_parity, raid3_join, raid3_recover,
}

-- The library calls on values: encode, decode, base64, json.dumps and json.loads of the index and
-- the text of a block, and response.json()['value'].
pub record Codec : Type 0 where
  pub encode : String → List ℕ
  pub decode : List ℕ → Result String
  pub b64encode : List ℕ → String
  pub b64decode : String → Result (List ℕ)
  pub dumps : Option ℕ → String → String
  pub loads : String → Result (Option ℕ × String)
  pub json_value : String → Result String

pub record Raid3Proxy : Type 0 where
  pub nodes : List (String × String)
  pub divisor : ℕ

unfoldable pub init : List (String × String) → Result Raid3Proxy
init nodes =
    if ltb (length nodes) 3
    then raise value_error
    else if ltb 255 (length nodes)
    then raise value_error
    else ok (record { nodes = nodes; divisor = length nodes - 1 })

module _ {W : Type 0} (http : Http W) (codec : Codec) where
  -- What is sent for a block.
  abbrev pub dump_block : DataBlock → String
  dump_block block = codec.dumps block.index (codec.b64encode block.data_)

  -- The loop over zip(nodes, blocks): it stops at a node that does not answer 200.
  unfoldable pub write_all :
      List (String × String) → List DataBlock → String → W → Result (Answer × W)
  write_all [] blocks key w = ok (answer stored 200, w)
  write_all (node ∷ nodes) [] key w = ok (answer stored 200, w)
  write_all ((name, url) ∷ nodes) (block ∷ blocks) key w =
      http.post url key (dump_block block) w >>= λ (response, w').
      elim (response.status_code == 200) [
        | true ↦ write_all nodes blocks key w'
        | false ↦ ok (answer (write_error url) 500, w')
      ]

  unfoldable pub put : Raid3Proxy → String → String → W → Result (Answer × W)
  put self key text w =
      if ltb (count text) self.divisor
      then ok (answer (small_body self.divisor) 500, w)
      else (raid3_split codec.encode codec.decode self.divisor text >>= λ blocks.
          raid3_parity blocks >>= λ parity. write_all self.nodes (blocks ++ parity ∷ []) key w)

  -- The block that a response with status 200 carries.
  unfoldable pub load_block : Response → Result DataBlock
  load_block response = codec.json_value response.content >>= λ text.
      codec.loads text >>= λ (index, encoded).
      codec.b64decode encoded >>= λ bytes_. ok (record { index = index; data_ = bytes_ })

  -- One round of the loop: `none` is a node that failed. Only ConnectionError is caught.
  unfoldable pub read_block : String → String → W → Result (Option DataBlock)
  read_block url key w = elim (http.get url key w) [
    | raise connection_error ↦ ok none
    | raise e ↦ raise e
    | ok response ↦ elim (response.status_code == 200) [
      | true ↦ load_block response >>= λ block. ok (some block)
      | false ↦ ok none
    ]
  ]

  -- The loop: the blocks so far, and the index of the failed one. `none` is the answer that there
  -- are too many errors.
  unfoldable pub read_all :
      List (String × String)
      → String
      → List (Option DataBlock)
      → Option ℕ
      → W
      → Result (Option (List (Option DataBlock) × Option ℕ))
  read_all [] key blocks error_index w = ok (some (blocks, error_index))
  read_all ((name, url) ∷ nodes) key blocks error_index w = read_block url key w >>= λ block.
      elim block [
        | some b ↦ read_all nodes key (blocks ++ some b ∷ []) error_index w
        | none ↦ elim error_index [
          | some _ ↦ ok none
          | none ↦ read_all nodes key (blocks ++ none ∷ []) (some (length blocks)) w
        ]
      ]

  unfoldable pub get : Raid3Proxy → String → W → Result Answer
  get self key w = read_all self.nodes key [] none w >>= λ read. elim read [
    | none ↦ ok (answer (too_many_errors key) 500)
    | some (blocks, error_index) ↦
        (elim error_index [
          | none ↦ raid3_join codec.encode codec.decode blocks
          | some i ↦ raid3_recover codec.encode codec.decode blocks i
        ])
        >>= λ text. ok (answer (value text) 200)
  ]
