-- ===== src/Guarantees/Window/Progress.antt =====
-- The windowed sender is never stuck: from every state of a run, timers, arrivals and
-- acknowledgements can bring every submitted message to the user.
use native.Mathlib.Decide.{dec_lt, ℕ_discrete}
use distsys_course_work.Prelude.{
  ℕ, zero, suc, ◌+◌, ◌-◌, ◌^◌, ◌≤◌, ◌<◌, ◌≡◌, refl, true, false, some, [], ◌∷◌, inl, inr, arith,
  max, nat_eq, Option-cases, length, Member-append_end, ◌∙◌, ap,
}
use distsys_course_work.Prelude.Dict
use distsys_course_work.Prelude.HashSet
use distsys_course_work.Runtime.{Message, fresh, ok, set, digits-le}
use distsys_course_work.Guarantees.{Data, Ack}
use distsys_course_work.Guarantees.Link.{
  System, Step, arrive, acked, fire, Reach, here, next, Reach-trans, after_sender, after_receiver,
}
use distsys_course_work.Guarantees.Window
use distsys_course_work.Guarantees.Window.{Sender, on_timer, on_message}
use distsys_course_work.Guarantees.Window.Receivers.{WindowReceiver}
use distsys_course_work.Guarantees.Window.Runs.{Inv, Reach-Inv}

module _ {Text R : Type 0} (limit delay : ℕ) (w : WindowReceiver Text R limit) where
  -- The order at the sender's bound has not been acknowledged, so it is still stored.
  pub first_pending :
      (sys : System Text (Sender Text) R Ack)
      → Inv limit delay w sys
      → sys.sender.order_lower_bound < length sys.inputs
      → (t : Text) × (Dict.lookup sys.sender.order_lower_bound sys.sender.message_store ≡ some t)
  first_pending sys v less =
      elim (Option-cases (Dict.lookup sys.sender.order_lower_bound sys.sender.message_store)) [
        | inl gone ↦
            let (a, mem, order, below) = v.shared.popped sys.sender.order_lower_bound less gone in
            absurd (omega (arith, v.shared.ahead a mem order))
        | inr found ↦ found
      ]

  -- Its timer sends it again.
  repeats :
      (s : Sender Text) (k now : ℕ) (t : Text)
      → Dict.lookup k s.message_store ≡ some t
      → k ≤ s.order_lower_bound + limit
      → k < 10 ^ 50
      → on_timer limit delay s k (fresh now)
        ≡ ok (
          s,
          record (fresh now) {
            sent =
                (record { type = "MESSAGE"; body = record { order = k; text = t } }, s.receiver)
                ∷ [];
            timer_actions = set k delay ∷ [];
          },
        )
  unfolding on_timer
  repeats s k now t stored inside small = ground (arith, digits-le k small)

  abbrev Runs : System Text (Sender Text) R Ack → System Text (Sender Text) R Ack → Type 0
  Runs s t = Reach (Window.sender limit delay) w.process s t × (t.inputs ≡ s.inputs)

  -- One round trip of that message moves the sender's bound.
  advance :
      (s : System Text (Sender Text) R Ack)
      → Inv limit delay w s
      → s.sender.order_lower_bound < length s.inputs
      → length s.inputs < 10 ^ 50
      → (t : System Text (Sender Text) R Ack) × Runs s t
        × (s.sender.order_lower_bound < t.sender.order_lower_bound)
  unfolding on_message
  advance s v less small =
      let k = s.sender.order_lower_bound in
      let (text, stored) = first_pending s v less in
      let msg : Message (Data Text) = record {
        type = "MESSAGE";
        body = record { order = k; text = text };
      } in
      let s1 : System Text (Sender Text) R Ack =
        after_sender (record s { timers = HashSet.discard k s.timers })
          (
            s.sender,
            record (fresh 0) {
              sent = (msg, s.sender.receiver) ∷ [];
              timer_actions = set k delay ∷ [];
            },
          ) in
      let step1 : Step (Window.sender limit delay) w.process s s1 =
        fire 0 k _ (v.shared.armed k text stored)
          (repeats s.sender k 0 text stored (omega arith) (omega arith)) in
      let (r, run, a) =
        w.answers s.inputs s.delivered s.receiver 0 "" msg v.holds (v.shared.stored k text stored)
          (omega (arith, v.shared.behind)) (omega arith) in
      let s2 : System Text (Sender Text) R Ack = after_receiver s1 r in
      let step2 : Step (Window.sender limit delay) w.process s1 s2 =
        arrive 0 "" msg r (Member-append_end s.wire msg) run in
      let ack : Message Ack = record {
        type = "MESSAGE";
        body = record { order = k; lower_bound = w.lower r.0 };
      } in
      let p : Sender Text = record s.sender {
        message_store = Dict.remove k s.sender.message_store;
        order_lower_bound = max k (w.lower r.0);
      } in
      let step3 : Step (Window.sender limit delay) w.process s2 (after_sender s2 (p, fresh 0)) =
        acked 0 "" ack (p, fresh 0) (rw a.answered (Member-append_end s.acks ack)) refl in
      (
        after_sender s2 (p, fresh 0),
        (next (next (next here step1) step2) step3, refl),
        beyond k r.0 a.had a.stops (omega (arith, v.shared.behind, a.grows)),
      )
    where
      beyond :
          (k : ℕ) (r : R)
          → w.seen r k ≡ true
          → w.seen r (w.lower r) ≡ false
          → k ≤ w.lower r
          → k < max k (w.lower r)
      beyond k r had stops le = elim (ℕ_discrete k (w.lower r)) [
        | yes same ↦ absurd (ground (arith, ap (w.seen r) same))
        | no other ↦ omega arith
      ]

  -- From every state of a run some continuation, with no new message, gives the user of the
  -- receiver all that the user of the sender submitted, as far as `Holds` says what it has.
  pub all_reached :
      (fuel : ℕ) (s : System Text (Sender Text) R Ack)
      → Inv limit delay w s
      → length s.inputs < 10 ^ 50
      → length s.inputs - s.sender.order_lower_bound ≤ fuel
      → (t : System Text (Sender Text) R Ack) × Runs s t
        × Inv limit delay w t
        × (length s.inputs ≤ w.lower t.receiver)
  all_reached zero s v small m = (s, (here, refl), v, omega (arith, v.shared.behind))
  all_reached (suc fuel) s v small m = elim (dec_lt s.sender.order_lower_bound (length s.inputs)) [
    | no done ↦ (s, (here, refl), v, omega (arith, v.shared.behind))
    | yes more ↦
        let (t, (run, same), grows) = advance s v more small in
        let n = ap length same in
        let (u, (rest, kept), vu, all) =
          all_reached fuel t (Reach-Inv limit delay w v run) (omega (arith, n))
            (omega (arith, n)) in
        (
          u,
          (Reach-trans (Window.sender limit delay) w.process run rest, kept ∙ same),
          vu,
          omega (arith, n),
        )
  ]
