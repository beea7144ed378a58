-- ===== src/Guarantees/AtMostOnce.antt =====
-- AtMostOnceSender and AtMostOnceReceiver.
pub mod Arrival
pub mod Delivery
use distsys_course_work.Prelude.{
  ℕ, zero, suc, ◌+◌, ◌-◌, String, Bool, true, not, ◌&&◌, List, [], leb, if◌then◌else◌, nat_eq,
}
use distsys_course_work.Prelude.HashSet
use distsys_course_work.Runtime.{Message, Context, Result, ok, ◌>>=◌, send, send_local, Process}
use distsys_course_work.Guarantees.{Data, Ack}

abbrev pub message_order_limit_amo : ℕ
message_order_limit_amo = 3

pub record Sender : Type 0 where
  pub id : String
  pub receiver : String
  pub order : ℕ

pub record Receiver : Type 0 where
  pub id : String
  pub order_lower_bound : ℕ
  pub order_store : List ℕ

abbrev pub init_sender : String → String → Sender
init_sender proc_id receiver_id = record { id = proc_id; receiver = receiver_id; order = 0 }

abbrev pub init : String → Receiver
init proc_id = record { id = proc_id; order_lower_bound = 0; order_store = [] }

-- `all(o in store for o in range(order - n, order))`. The set holds no negative number, so the test
-- fails where `order - n` is one.
unfoldable pub all_stored : ℕ → ℕ → List ℕ → Bool
all_stored zero order store = true
all_stored (suc n) order store =
    leb (suc n) order && HashSet.contains (order - suc n) store && all_stored n order store

-- `for o in range(first, first + n): store.discard(o)`
unfoldable pub discard_range : ℕ → ℕ → List ℕ → List ℕ
discard_range first zero store = store
discard_range first (suc n) store = discard_range (first + 1) n (HashSet.discard first store)

-- The second branch of the receiver: it forgets what lies up to `order`.
unfoldable pub prune : Receiver → ℕ → Receiver
unfolding all_stored discard_range
prune r order =
    if all_stored message_order_limit_amo order r.order_store
    then record r {
      order_store =
          discard_range r.order_lower_bound (order + 1 - r.order_lower_bound) r.order_store;
      order_lower_bound = order + 1;
    }
    else r

module _ {Text : Type 0} where
  unfoldable pub on_local_message :
      Sender
      → Message Text
      → Context (Data Text) Text ℕ
      → Result (Sender × Context (Data Text) Text ℕ)
  unfolding send
  on_local_message s msg ctx = do
    sent ←
        send (record { type = msg.type; body = record { order = s.order; text = msg.body } })
          s.receiver ctx
    ok (record s { order = s.order + 1 }, sent)

  unfoldable pub deliver_new :
      Receiver → Message (Data Text) → Context Ack Text ℕ → Result (Receiver × Context Ack Text ℕ)
  unfolding send_local
  deliver_new r msg ctx =
      if leb r.order_lower_bound msg.body.order
        && not (HashSet.contains msg.body.order r.order_store)
      then (do
        told ← send_local (record { type = msg.type; body = msg.body.text }) ctx
        ok (record r { order_store = HashSet.add msg.body.order r.order_store }, told))
      else ok (r, ctx)

  unfoldable pub on_message :
      Receiver
      → Message (Data Text)
      → String
      → Context Ack Text ℕ
      → Result (Receiver × Context Ack Text ℕ)
  on_message r msg from ctx = do
    (r', told) ← deliver_new r msg ctx
    ok (prune r' msg.body.order, told)

  -- The other callbacks are `pass`.
  abbrev pub sender : Process Sender Text Ack (Data Text) Text ℕ
  sender = record {
    on_local_message = on_local_message;
    on_message = λ s msg from ctx. ok (s, ctx);
    on_timer = λ s t ctx. ok (s, ctx);
  }

  abbrev pub receiver : Process Receiver Text (Data Text) Ack Text ℕ
  receiver = record {
    on_local_message = λ r msg ctx. ok (r, ctx);
    on_message = on_message;
    on_timer = λ r t ctx. ok (r, ctx);
  }
