-- ===== src/Guarantees/ExactlyOnce.antt =====
-- ExactlyOnceSender and ExactlyOnceReceiver.
pub mod Arrival
pub mod Delivery
use distsys_course_work.Prelude.{
  ℕ, ◌+◌, String, Bool, not, ◌&&◌, List, [], leb, if◌then◌else◌, length, nat_eq,
}
use distsys_course_work.Prelude.HashSet
use distsys_course_work.Runtime.{Message, Context, Result, ok, ◌>>=◌, send, send_local, Process}
use distsys_course_work.Runtime.Loop.{while}
use distsys_course_work.Guarantees.{Data, Ack}
use distsys_course_work.Guarantees.Window
use distsys_course_work.Guarantees.Window.{Sender}

abbrev pub delay_eo : ℕ
delay_eo = 4

abbrev pub message_order_limit_eo : ℕ
message_order_limit_eo = 21

abbrev pub sender : {Text : Type 0} → Process (Sender Text) Text Ack (Data Text) Text ℕ
sender = Window.sender message_order_limit_eo delay_eo

pub record Receiver : Type 0 where
  pub id : String
  pub order_lower_bound : ℕ
  pub order_store : List ℕ

abbrev pub init : String → Receiver
init proc_id = record { id = proc_id; order_lower_bound = 0; order_store = [] }

-- The loop that moves the bound over the orders that are in the set.
abbrev pub bound_is_stored : Receiver → Bool
bound_is_stored r = HashSet.contains r.order_lower_bound r.order_store

unfoldable pub move_bound : Receiver → Result Receiver
move_bound r = ok (record r {
  order_store = HashSet.discard r.order_lower_bound r.order_store;
  order_lower_bound = r.order_lower_bound + 1;
})

-- The loop's fuel is the size of the set: each round removes one element.
unfoldable pub move_bounds : Receiver → Result Receiver
unfolding while move_bound
move_bounds r = while (length r.order_store) bound_is_stored move_bound r

module _ {Text : Type 0} where
  unfoldable pub deliver_new :
      Receiver → Message (Data Text) → Context Ack Text ℕ → Result (Receiver × Context Ack Text ℕ)
  unfolding send_local
  deliver_new r msg ctx =
      if leb r.order_lower_bound msg.body.order
        && not (HashSet.contains msg.body.order r.order_store)
      then (do
        told ← send_local (record { type = msg.type; body = msg.body.text }) ctx
        ok (record r { order_store = HashSet.add msg.body.order r.order_store }, told))
      else ok (r, ctx)

  unfoldable pub on_message :
      Receiver
      → Message (Data Text)
      → String
      → Context Ack Text ℕ
      → Result (Receiver × Context Ack Text ℕ)
  unfolding send
  on_message r msg from ctx = do
    (r1, told) ← deliver_new r msg ctx
    r2 ← move_bounds r1
    acked ←
        send
          (record {
            type = "MESSAGE";
            body = record { order = msg.body.order; lower_bound = r2.order_lower_bound };
          })
          from told
    ok (r2, acked)

  abbrev pub receiver : Process Receiver Text (Data Text) Ack Text ℕ
  receiver = record {
    on_local_message = λ r msg ctx. ok (r, ctx);
    on_message = on_message;
    on_timer = λ r t ctx. ok (r, ctx);
  }
