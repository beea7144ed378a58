-- ===== src/Guarantees/ExactlyOnce/Delivery.antt =====
-- What the exactly-once pair guarantees over the network.
use mathlib.Core.List.{Perm}
use distsys_course_work.Prelude.{
  Member, ◌∷◌, ℕ, ◌+◌, ◌^◌, ◌≤◌, ◌<◌, ◌≡◌, String, true, List, [], arith, nat_eq, length, take_all,
  subst, ap,
}
use distsys_course_work.Prelude.HashSet
use distsys_course_work.Runtime.{Message, Context, fresh, ok}
use distsys_course_work.Guarantees.{Data, Ack}
use distsys_course_work.Guarantees.Link.{System, Reach, start}
use distsys_course_work.Guarantees.Log.{texts, IsDistinct, Told, Told-Perm}
use distsys_course_work.Guarantees.Window
use distsys_course_work.Guarantees.Window.{Sender}
use distsys_course_work.Guarantees.Window.Receivers.{WindowReceiver}
use distsys_course_work.Guarantees.Window.Runs.{Inv, all_below, start-Inv, Reach-Inv}
use distsys_course_work.Guarantees.Window.Progress.{all_reached}
use distsys_course_work.Guarantees.ExactlyOnce.{
  Receiver, init, sender, receiver, on_message, message_order_limit_eo, delay_eo,
}
use distsys_course_work.Guarantees.ExactlyOnce.Arrival.{
  seen, Held, Held-stops, Held-submit, on_message-Answer,
}

module _ {Text : Type 0} where
  abbrev pub promise : WindowReceiver Text Receiver message_order_limit_eo
  promise = record {
    process = receiver;
    lower = λ r. r.order_lower_bound;
    seen = seen;
    Holds = Held message_order_limit_eo;
    holds_submit = λ inputs body ds r h. Held-submit message_order_limit_eo inputs ds r h body;
    holds_stops = λ inputs ds r h. Held-stops message_order_limit_eo inputs ds r h;
    answers = λ inputs ds r now from m h at near short.
        on_message-Answer message_order_limit_eo inputs ds r h now m.body.order m.body.text m.type
          from at near short;
  }

  -- The states of the runs of a fresh pair of processes.
  abbrev pub Run : String → String → System Text (Sender Text) Receiver Ack → Type 0
  Run a b = Reach sender receiver (start (Window.init a b) (init b))

  Run-Inv :
      (a b : String) (s : System Text (Sender Text) Receiver Ack)
      → Run a b s
      → Inv message_order_limit_eo delay_eo promise s
  unfolding HashSet.contains
  Run-Inv a b s run =
      Reach-Inv message_order_limit_eo delay_eo promise
        (start-Inv message_order_limit_eo delay_eo promise a b (init b) (record {
          orders = [];
          distinct = tt;
          told = tt;
          exactly = λ k. ground arith;
          kept = λ k e. cc;
          known = λ k e. ground arith;
        }))
        run

  -- In every run, whatever the network loses, repeats or reorders, the user of the receiver has
  -- been told the texts of distinct orders, one for one, and those are exactly the orders below the
  -- bound or in the receiver's set.
  pub each_seen_once :
      (a b : String) (s : System Text (Sender Text) Receiver Ack)
      → Run a b s
      → (orders : List ℕ) × IsDistinct orders
        × Told s.inputs orders (texts s.delivered)
        × ((k : ℕ) → HashSet.contains k orders ≡ seen s.receiver k)
  each_seen_once a b s run =
      let h = (Run-Inv a b s run).holds in (h.orders, h.distinct, h.told, h.exactly)

  -- What the receiver's set holds lies beyond its bound and at most 21 after it.
  pub stored_in_window :
      (a b : String) (s : System Text (Sender Text) Receiver Ack)
      → Run a b s
      → (k : ℕ) → HashSet.contains k s.receiver.order_store ≡ true
      → (s.receiver.order_lower_bound < k) × (k ≤ s.receiver.order_lower_bound + 21)
  stored_in_window a b s run k e = (Run-Inv a b s run).holds.kept k e

  Held-Perm :
      (inputs : List Text) (ds : List (Message Text)) (r : Receiver)
      → Held message_order_limit_eo inputs ds r
      → length inputs ≤ r.order_lower_bound
      → Perm (texts ds) inputs
  Held-Perm inputs ds r h all =
      subst (Perm (texts ds)) (take_all (length inputs) inputs (omega arith)) (
        Told-Perm inputs (length inputs) h.orders (texts ds) (omega arith) h.distinct
          (λ k. ground (arith, h.exactly k, h.known k)) h.told)

  -- When the sender has no message left to repeat, the user of the receiver has every submitted
  -- text exactly as often as it was submitted.
  pub permutation_when_acknowledged :
      (a b : String) (s : System Text (Sender Text) Receiver Ack)
      → Run a b s
      → s.sender.message_store ≡ []
      → Perm (texts s.delivered) s.inputs
  permutation_when_acknowledged a b s run e =
      let v = Run-Inv a b s run in
      Held-Perm s.inputs s.delivered s.receiver v.holds
        (all_below message_order_limit_eo delay_eo promise s v e)

  pub permutation_reachable :
      (a b : String) (s : System Text (Sender Text) Receiver Ack)
      → Run a b s
      → length s.inputs < 10 ^ 50
      → (t : System Text (Sender Text) Receiver Ack) × Reach sender receiver s t
        × (t.inputs ≡ s.inputs)
        × Perm (texts t.delivered) s.inputs
  permutation_reachable a b s run small =
      let (t, (more, same), v, all) =
        all_reached message_order_limit_eo delay_eo promise (length s.inputs) s (Run-Inv a b s run)
          small (omega arith) in
      (
        t,
        more,
        same,
        subst (Perm (texts t.delivered)) same
            (Held-Perm t.inputs t.delivered t.receiver v.holds (omega (arith, ap length same))),
      )

  pub arrival_answered :
      (a b : String) (s : System Text (Sender Text) Receiver Ack)
      → Run a b s
      → (m : Message (Data Text)) (now : ℕ) (from : String) → Member m s.wire
      → (r : Receiver × Context Ack Text ℕ) × (on_message s.receiver m from (fresh now) ≡ ok r)
        × (s.receiver.order_lower_bound ≤ r.0.order_lower_bound)
        × (r.1.sent
            ≡ (
              record {
                type = "MESSAGE";
                body = record { order = m.body.order; lower_bound = r.0.order_lower_bound };
              },
              from,
            )
              ∷ [])
  arrival_answered a b s run m now from mem =
      let v = Run-Inv a b s run in
      let (at, near, short) = v.shared.in_flight m mem in
      let (r, done, ans) =
        promise.answers s.inputs s.delivered s.receiver now from m v.holds at near short in
      (r, done, ans.grows, ans.answered)
