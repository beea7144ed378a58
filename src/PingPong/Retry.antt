-- ===== src/PingPong/Retry.antt =====
-- ping-pong/impl_retry.py: PingClient and PingServer. The client sends a ping again until a pong
-- comes.
use distsys_course_work.Prelude.{String, true, false, Option, none, some, ◌==◌, text_eq}
use distsys_course_work.Runtime.{
  Message, Result, ok, ◌>>=◌, send, send_local, set_timer, cancel_timer, text_name, Process,
}
use distsys_course_work.PingPong.Basic.{PingServer, Ctx}

pub record RetryClient (Value : Type 0) : Type 0 where
  pub id : String
  pub server_id : String
  pub ping : Option (Message Value)

abbrev pub init : {Value : Type 0} → String → String → RetryClient Value
init proc_id server_id = record { id = proc_id; server_id = server_id; ping = none }

module _ {Value : Type 0} where
  unfoldable pub on_local_message :
      RetryClient Value → Message Value → Ctx Value → Result (RetryClient Value × Ctx Value)
  unfolding send set_timer
  on_local_message self msg ctx = elim (msg.type == "PING") [
    | true ↦ do
      sent ← send msg self.server_id ctx
      timed ← set_timer "check_pong" 3 sent
      ok (record self { ping = some msg }, timed)
    | false ↦ ok (self, ctx)
  ]

  unfoldable pub on_message :
      RetryClient Value
      → Message Value
      → String
      → Ctx Value
      → Result (RetryClient Value × Ctx Value)
  unfolding send_local cancel_timer
  on_message self msg sender ctx = elim (msg.type == "PONG") [
    | false ↦ ok (self, ctx)
    | true ↦ elim self.ping [
      | none ↦ ok (self, ctx)
      | some _ ↦ do
        told ← send_local msg (cancel_timer "check_pong" ctx)
        ok (record self { ping = none }, told)
    ]
  ]

  unfoldable pub on_timer :
      RetryClient Value → String → Ctx Value → Result (RetryClient Value × Ctx Value)
  unfolding send set_timer
  on_timer self timer_name ctx = elim (timer_name == "check_pong") [
    | false ↦ ok (self, ctx)
    | true ↦ elim self.ping [
      | none ↦ ok (self, ctx)
      | some ping ↦ do
        sent ← send ping self.server_id ctx
        timed ← set_timer "check_pong" 3 sent
        ok (self, timed)
    ]
  ]

  abbrev pub client : Process (RetryClient Value) Value Value Value Value String
  client = record {
    on_local_message = on_local_message;
    on_message = on_message;
    on_timer = on_timer;
  }

  unfoldable pub answer_any :
      PingServer → Message Value → String → Ctx Value → Result (PingServer × Ctx Value)
  unfolding send
  answer_any self msg sender ctx =
      send (record { type = "PONG"; body = msg.body }) sender ctx >>= λ sent. ok (self, sent)

  abbrev pub server : Process PingServer Value Value Value Value String
  server = record {
    on_local_message = λ self msg ctx. ok (self, ctx);
    on_message = answer_any;
    on_timer = λ self name ctx. ok (self, ctx);
  }
