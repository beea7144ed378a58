-- ===== src/Guarantees/Window.antt =====
-- ExactlyOnceSender and ExactlyOnceOrderedSender: one code with two values of the window.
pub mod Cases
pub mod Invariant
pub mod Receivers
pub mod Runs
pub mod Progress
use distsys_course_work.Prelude.{
  ℕ, ◌+◌, ◌≤◌, ◌≡◌, refl, String, Bool, true, false, Option, none, some, List, [], ◌∷◌, arith, leb,
  max, if◌then◌else◌, nat_eq,
}
use distsys_course_work.Prelude.Dict
use distsys_course_work.Runtime.{
  Message, Context, Result, ok, raise, ◌>>=◌, send, set_timer, Process, counter_name,
}
use distsys_course_work.Guarantees.{Data, Ack}

pub record Sender (Text : Type 0) : Type 0 where
  pub id : String
  pub receiver : String
  pub order : ℕ
  pub order_lower_bound : ℕ
  pub message_store : List (ℕ × Text)

abbrev pub init : {Text : Type 0} → String → String → Sender Text
init proc_id receiver_id = record {
  id = proc_id;
  receiver = receiver_id;
  order = 0;
  order_lower_bound = 0;
  message_store = [];
}

module _ {Text : Type 0} (limit delay : ℕ) where
  -- The branch on the window, of a new message and of a repeated one.
  unfoldable pub send_in_window :
      Sender Text
      → String
      → ℕ
      → Text
      → Context (Data Text) Text ℕ
      → Result (Context (Data Text) Text ℕ)
  unfolding send
  send_in_window s type order text ctx =
      if leb order (s.order_lower_bound + limit)
      then send (record { type = type; body = record { order = order; text = text } }) s.receiver
          ctx
      else ok ctx

  unfoldable pub on_local_message :
      Sender Text
      → Message Text
      → Context (Data Text) Text ℕ
      → Result (Sender Text × Context (Data Text) Text ℕ)
  unfolding send_in_window set_timer
  on_local_message s msg ctx = do
    let stored = record s { message_store = Dict.insert s.order msg.body s.message_store }
    sent ← send_in_window stored msg.type stored.order msg.body ctx
    timed ← set_timer stored.order delay sent
    ok (record stored { order = stored.order + 1 }, timed)

  unfoldable pub on_message :
      Sender Text
      → Message Ack
      → String
      → Context (Data Text) Text ℕ
      → Result (Sender Text × Context (Data Text) Text ℕ)
  on_message s msg from ctx = ok (
    record s {
      message_store = Dict.remove msg.body.order s.message_store;
      order_lower_bound = max s.order_lower_bound msg.body.lower_bound;
    },
    ctx,
  )

  unfoldable pub on_timer :
      Sender Text
      → ℕ
      → Context (Data Text) Text ℕ
      → Result (Sender Text × Context (Data Text) Text ℕ)
  unfolding send_in_window set_timer
  on_timer s order ctx = elim (Dict.lookup order s.message_store) [
    | none ↦ ok (s, ctx)
    | some text ↦ do
      sent ← send_in_window s "MESSAGE" order text ctx
      timed ← set_timer order delay sent
      ok (s, timed)
  ]

  abbrev pub sender : Process (Sender Text) Text Ack (Data Text) Text ℕ
  sender = record {
    on_local_message = on_local_message;
    on_message = on_message;
    on_timer = on_timer;
  }
