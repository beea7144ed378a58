-- ===== src/PingPong/Basic.antt =====
-- ping-pong/impl_basic.py: PingClient and PingServer. The server knows only the key `value`.
use distsys_course_work.Prelude.{String, true, false, ◌==◌, text_eq}
use distsys_course_work.Runtime.{Message, Context, Result, ok, ◌>>=◌, send, send_local, Process}

pub record PingClient : Type 0 where
  pub id : String
  pub server_id : String

pub record PingServer : Type 0 where
  pub id : String

abbrev pub Ctx : Type 0 → Type 0
Ctx Value = Context Value Value String

module _ {Value : Type 0} where
  unfoldable pub submit_ping :
      PingClient → Message Value → Ctx Value → Result (PingClient × Ctx Value)
  unfolding send
  submit_ping self msg ctx = elim (msg.type == "PING") [
    | true ↦ send msg self.server_id ctx >>= λ sent. ok (self, sent)
    | false ↦ ok (self, ctx)
  ]

  unfoldable pub on_pong :
      PingClient → Message Value → String → Ctx Value → Result (PingClient × Ctx Value)
  unfolding send_local
  on_pong self msg sender ctx = elim (msg.type == "PONG") [
    | true ↦ send_local msg ctx >>= λ told. ok (self, told)
    | false ↦ ok (self, ctx)
  ]

  abbrev pub client : Process PingClient Value Value Value Value String
  client = record {
    on_local_message = submit_ping;
    on_message = on_pong;
    on_timer = λ self name ctx. ok (self, ctx);
  }

  unfoldable pub answer_ping :
      PingServer → Message Value → String → Ctx Value → Result (PingServer × Ctx Value)
  unfolding send
  answer_ping self msg sender ctx = elim (msg.type == "PING") [
    | true ↦ send (record { type = "PONG"; body = msg.body }) sender ctx >>= λ sent. ok (self, sent)
    | false ↦ ok (self, ctx)
  ]

  abbrev pub server : Process PingServer Value Value Value Value String
  server = record {
    on_local_message = λ self msg ctx. ok (self, ctx);
    on_message = answer_ping;
    on_timer = λ self name ctx. ok (self, ctx);
  }
