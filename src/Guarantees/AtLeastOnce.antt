-- ===== src/Guarantees/AtLeastOnce.antt =====
-- AtLeastOnceSender and AtLeastOnceReceiver.
pub mod Delivery
use distsys_course_work.Prelude.{ℕ, ◌+◌, String, none, some, List, [], ◌∷◌, nat_eq}
use distsys_course_work.Prelude.Dict
use distsys_course_work.Runtime.{
  Message, Context, Result, ok, ◌>>=◌, send, send_local, set_timer, counter_name, Process,
}
use distsys_course_work.Guarantees.{Data}

abbrev pub delay_alo : ℕ
delay_alo = 4

-- The answer of this pair's receiver.
pub record OrderAck : Type 0 where
  pub order : ℕ

pub record Sender (Text : Type 0) : Type 0 where
  pub id : String
  pub receiver : String
  pub order : ℕ
  pub message_store : List (ℕ × Text)

pub record Receiver : Type 0 where
  pub id : String

abbrev pub init_sender : {Text : Type 0} → String → String → Sender Text
init_sender proc_id receiver_id = record {
  id = proc_id;
  receiver = receiver_id;
  order = 0;
  message_store = [];
}

abbrev pub init : String → Receiver
init proc_id = record { id = proc_id }

module _ {Text : Type 0} where
  unfoldable pub on_local_message :
      Sender Text
      → Message Text
      → Context (Data Text) Text ℕ
      → Result (Sender Text × Context (Data Text) Text ℕ)
  unfolding send set_timer
  on_local_message s msg ctx = do
    let stored = record s { message_store = Dict.insert s.order msg.body s.message_store }
    sent ←
        send (record { type = msg.type; body = record { order = stored.order; text = msg.body } })
          stored.receiver ctx
    timed ← set_timer stored.order delay_alo sent
    ok (record stored { order = stored.order + 1 }, timed)

  unfoldable pub on_ack :
      Sender Text
      → Message OrderAck
      → String
      → Context (Data Text) Text ℕ
      → Result (Sender Text × Context (Data Text) Text ℕ)
  on_ack s msg from ctx =
      ok (record s { message_store = Dict.remove msg.body.order s.message_store }, ctx)

  unfoldable pub on_timer :
      Sender Text
      → ℕ
      → Context (Data Text) Text ℕ
      → Result (Sender Text × Context (Data Text) Text ℕ)
  unfolding send set_timer
  on_timer s order ctx = elim (Dict.lookup order s.message_store) [
    | none ↦ ok (s, ctx)
    | some text ↦ do
      sent ←
          send (record { type = "MESSAGE"; body = record { order = order; text = text } })
            s.receiver ctx
      timed ← set_timer order delay_alo sent
      ok (s, timed)
  ]

  unfoldable pub on_message :
      Receiver
      → Message (Data Text)
      → String
      → Context OrderAck Text ℕ
      → Result (Receiver × Context OrderAck Text ℕ)
  unfolding send send_local
  on_message r msg from ctx = do
    told ← send_local (record { type = msg.type; body = msg.body.text }) ctx
    acked ← send (record { type = "MESSAGE"; body = record { order = msg.body.order } }) from told
    ok (r, acked)

  abbrev pub sender : Process (Sender Text) Text OrderAck (Data Text) Text ℕ
  sender = record { on_local_message = on_local_message; on_message = on_ack; on_timer = on_timer }

  abbrev pub receiver : Process Receiver Text (Data Text) OrderAck Text ℕ
  receiver = record {
    on_local_message = λ r msg ctx. ok (r, ctx);
    on_message = on_message;
    on_timer = λ r t ctx. ok (r, ctx);
  }
