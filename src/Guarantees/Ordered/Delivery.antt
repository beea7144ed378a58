-- ===== src/Guarantees/Ordered/Delivery.antt =====
-- What the ordered exactly-once pair guarantees over the network.
use distsys_course_work.Prelude.{
  Member, ℕ, ◌+◌, ◌^◌, ◌≤◌, ◌<◌, ◌≡◌, refl, String, some, List, [], ◌∷◌, ◌++◌, arith, nat_eq,
  get_elem?, length, length-append, take, take_all, take-append_left, get_elem?-append_left,
  lt_of_get_elem?, ◌∙◌, sym,
}
use distsys_course_work.Prelude.Dict
use distsys_course_work.Runtime.{Message, Context, fresh, ok}
use distsys_course_work.Guarantees.{Data, Ack}
use distsys_course_work.Guarantees.Link.{System, Reach, start}
use distsys_course_work.Guarantees.Window
use distsys_course_work.Guarantees.Window.{Sender}
use distsys_course_work.Guarantees.Window.Receivers.{WindowReceiver}
use distsys_course_work.Guarantees.Window.Runs.{Inv, all_below, start-Inv, Reach-Inv}
use distsys_course_work.Guarantees.Window.Progress.{all_reached}
use distsys_course_work.Guarantees.Log.{texts}
use distsys_course_work.Guarantees.Ordered.{
  Receiver, init, sender, receiver, on_message, message_order_limit_eoo, delay_eoo,
}
use distsys_course_work.Guarantees.Ordered.Deliver.{seen}
use distsys_course_work.Guarantees.Ordered.Arrival.{Held, Held-stops, on_message-Answer}

module _ {Text : Type 0} where
  pub Held-submit :
      (inputs : List Text) (body : Text) (ds : List (Message Text)) (r : Receiver Text)
      → Held message_order_limit_eoo inputs ds r
      → Held message_order_limit_eoo (inputs ++ body ∷ []) ds r
  Held-submit inputs body ds r h = record {
    reached = omega (arith, h.reached, length-append inputs (body ∷ []));
    told = h.told ∙ sym (take-append_left r.order_lower_bound inputs (body ∷ []) h.reached);
    held = λ k t e.
        let (at, below, near) = h.held k t e in
        (
          get_elem?-append_left inputs (body ∷ []) k (lt_of_get_elem? inputs k t at) ∙ at,
          below,
          near,
        );
  }

  abbrev pub promise : WindowReceiver Text (Receiver Text) message_order_limit_eoo
  promise = record {
    process = receiver;
    lower = λ r. r.order_lower_bound;
    seen = seen;
    Holds = Held message_order_limit_eoo;
    holds_submit = Held-submit;
    holds_stops = Held-stops message_order_limit_eoo;
    answers = λ inputs ds r now from m h at near short.
        on_message-Answer message_order_limit_eoo inputs ds r h now m.body.order m.body.text at near
          m.type from;
  }

  -- The states of the runs of a fresh pair of processes.
  abbrev pub Run : String → String → System Text (Sender Text) (Receiver Text) Ack → Type 0
  Run a b = Reach sender receiver (start (Window.init a b) (init b))

  Run-Inv :
      (a b : String) (s : System Text (Sender Text) (Receiver Text) Ack)
      → Run a b s
      → Inv message_order_limit_eoo delay_eoo promise s
  unfolding Dict.lookup
  Run-Inv a b s run =
      Reach-Inv message_order_limit_eoo delay_eoo promise
        (start-Inv message_order_limit_eoo delay_eoo promise a b (init b)
          (record { reached = omega arith; told = refl; held = λ k t e. cc }))
        run

  -- In every run, whatever the network loses, repeats or reorders, the user of the receiver has
  -- been given exactly the first `order_lower_bound` of the submitted texts, each once and in the
  -- order of submission.
  pub delivered_in_order :
      (a b : String) (s : System Text (Sender Text) (Receiver Text) Ack)
      → Run a b s
      → (texts s.delivered ≡ take s.receiver.order_lower_bound s.inputs)
        × (s.receiver.order_lower_bound ≤ length s.inputs)
  delivered_in_order a b s run = let v = Run-Inv a b s run in (v.holds.told, v.holds.reached)

  -- What the receiver keeps back lies beyond the next order and at most 30 after it, and is the
  -- text submitted under that order.
  pub ordered_store_in_window :
      (a b : String) (s : System Text (Sender Text) (Receiver Text) Ack)
      → Run a b s
      → (k : ℕ) (t : Text) → Dict.lookup k s.receiver.message_store ≡ some t
      → (get_elem? s.inputs k ≡ some t)
        × (s.receiver.order_lower_bound < k)
        × (k ≤ s.receiver.order_lower_bound + 30)
  ordered_store_in_window a b s run k t e = (Run-Inv a b s run).holds.held k t e

  -- When the sender has no message left to repeat, the user of the receiver has every submitted
  -- text, in order.
  pub all_delivered_when_acknowledged :
      (a b : String) (s : System Text (Sender Text) (Receiver Text) Ack)
      → Run a b s
      → s.sender.message_store ≡ []
      → texts s.delivered ≡ s.inputs
  all_delivered_when_acknowledged a b s run e =
      let v = Run-Inv a b s run in
      v.holds.told
      ∙ take_all s.receiver.order_lower_bound s.inputs
          (all_below message_order_limit_eoo delay_eoo promise s v e)

  pub all_delivered_reachable :
      (a b : String) (s : System Text (Sender Text) (Receiver Text) Ack)
      → Run a b s
      → length s.inputs < 10 ^ 50
      → (t : System Text (Sender Text) (Receiver Text) Ack) × Reach sender receiver s t
        × (t.inputs ≡ s.inputs)
        × (texts t.delivered ≡ s.inputs)
  all_delivered_reachable a b s run small =
      let (t, (more, same), v, all) =
        all_reached message_order_limit_eoo delay_eoo promise (length s.inputs) s
          (Run-Inv a b s run) small (omega arith) in
      (t, more, same, rw (v.holds.told, same) (take_all t.receiver.order_lower_bound s.inputs all))

  pub ordered_arrival_answered :
      (a b : String) (s : System Text (Sender Text) (Receiver Text) Ack)
      → Run a b s
      → (m : Message (Data Text)) (now : ℕ) (from : String) → Member m s.wire
      → (r : Receiver Text × Context Ack Text ℕ) × (on_message s.receiver m from (fresh now) ≡ ok r)
        × (s.receiver.order_lower_bound ≤ r.0.order_lower_bound)
        × (r.1.sent
            ≡ (
              record {
                type = "MESSAGE";
                body = record { order = m.body.order; lower_bound = r.0.order_lower_bound };
              },
              from,
            )
              ∷ [])
  ordered_arrival_answered a b s run m now from mem =
      let v = Run-Inv a b s run in
      let (at, near, short) = v.shared.in_flight m mem in
      let (r, done, ans) =
        promise.answers s.inputs s.delivered s.receiver now from m v.holds at near short in
      (r, done, ans.grows, ans.answered)
