-- ===== src/Guarantees/Ordered.antt =====
-- ExactlyOnceOrderedSender and ExactlyOnceOrderedReceiver.
pub mod Deliver
pub mod Arrival
pub mod Delivery
use distsys_course_work.Prelude.{
  ℕ, ◌+◌, ◌≤◌, ◌≡◌, refl, String, Bool, true, false, not, ◌&&◌, Option, none, some, List, [], ◌∷◌,
  arith, leb, if◌then◌else◌, length, nat_eq,
}
use distsys_course_work.Prelude.Dict
use distsys_course_work.Runtime.{
  Message, Context, Result, ok, raise, key_error, ◌>>=◌, send, send_local, Process,
}
use distsys_course_work.Runtime.Loop.{while}
use distsys_course_work.Guarantees.{Data, Ack}
use distsys_course_work.Guarantees.Window
use distsys_course_work.Guarantees.Window.{Sender}

abbrev pub delay_eoo : ℕ
delay_eoo = 4

abbrev pub message_order_limit_eoo : ℕ
message_order_limit_eoo = 30

abbrev pub sender : {Text : Type 0} → Process (Sender Text) Text Ack (Data Text) Text ℕ
sender = Window.sender message_order_limit_eoo delay_eoo

pub record Receiver (Text : Type 0) : Type 0 where
  pub id : String
  pub order_lower_bound : ℕ
  pub message_store : List (ℕ × Text)

abbrev pub init : {Text : Type 0} → String → Receiver Text
init proc_id = record { id = proc_id; order_lower_bound = 0; message_store = [] }

module _ {Text : Type 0} where
  -- The test and the body of the loop that delivers what has become next.
  abbrev pub next_is_stored : Receiver Text × Context Ack Text ℕ → Bool
  next_is_stored (r, ctx) = Dict.has r.order_lower_bound r.message_store

  unfoldable pub deliver_next :
      Receiver Text × Context Ack Text ℕ → Result (Receiver Text × Context Ack Text ℕ)
  unfolding send_local
  deliver_next (r, ctx) = elim (Dict.lookup r.order_lower_bound r.message_store) [
    | none ↦ raise key_error
    | some text ↦ do
      told ← send_local (record { type = "MESSAGE"; body = text }) ctx
      ok (
        record r {
          message_store = Dict.remove r.order_lower_bound r.message_store;
          order_lower_bound = r.order_lower_bound + 1;
        },
        told,
      )
  ]

  -- The loop's fuel is the number of stored messages: each round removes one.
  unfoldable pub deliver_ready :
      Receiver Text → Context Ack Text ℕ → Result (Receiver Text × Context Ack Text ℕ)
  unfolding while deliver_next
  deliver_ready r ctx = while (length r.message_store) next_is_stored deliver_next (r, ctx)

  unfoldable pub store_and_deliver :
      Receiver Text → ℕ → Text → Context Ack Text ℕ → Result (Receiver Text × Context Ack Text ℕ)
  unfolding deliver_ready
  store_and_deliver r order text ctx =
      if leb r.order_lower_bound order && not (Dict.has order r.message_store)
      then deliver_ready (record r { message_store = Dict.insert order text r.message_store }) ctx
      else ok (r, ctx)

  unfoldable pub on_message :
      Receiver Text
      → Message (Data Text)
      → String
      → Context Ack Text ℕ
      → Result (Receiver Text × Context Ack Text ℕ)
  unfolding store_and_deliver send
  on_message r msg from ctx = do
    (r', told) ← store_and_deliver r msg.body.order msg.body.text ctx
    acked ←
        send
          (record {
            type = "MESSAGE";
            body = record { order = msg.body.order; lower_bound = r'.order_lower_bound };
          })
          from told
    ok (r', acked)

  abbrev pub receiver : Process (Receiver Text) Text (Data Text) Ack Text ℕ
  receiver = record {
    on_local_message = λ r msg ctx. ok (r, ctx);
    on_message = on_message;
    on_timer = λ r t ctx. ok (r, ctx);
  }
