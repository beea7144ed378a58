-- ===== src/Guarantees/Window/Runs.antt =====
-- Every run of the windowed sender with a receiver of that interface keeps the invariant.
use native.Mathlib.Decide.{dec_lt}
use distsys_course_work.Prelude.{
  ℕ, nat_eq, ◌≤◌, length, ap, ◌≡◌, refl, String, [], ◌++◌, ◌∙◌, sym, subst, arith, Member,
  not-Member-nil,
}
use distsys_course_work.Prelude.Dict
use distsys_course_work.Runtime.{Message, Context, fresh, ok, ok-injective}
use distsys_course_work.Guarantees.{Data, Ack}
use distsys_course_work.Guarantees.Link.{
  System, Step, submit, arrive, acked, fire, Reach, Reach-induction, start, after_receiver,
}
use distsys_course_work.Guarantees.Window
use distsys_course_work.Guarantees.Window.{Sender}
use distsys_course_work.Guarantees.Window.Invariant as Shared
use distsys_course_work.Guarantees.Window.Receivers.{WindowReceiver}

module _ {Text R : Type 0} (limit delay : ℕ) (w : WindowReceiver Text R limit) where
  pub record Inv (sys : System Text (Sender Text) R Ack) : Type 0 where
    pub shared : Shared.Inv limit sys (w.lower sys.receiver) (w.seen sys.receiver)
    pub holds : w.Holds sys.inputs sys.delivered sys.receiver

  pub arrive-Inv :
      (sys : System Text (Sender Text) R Ack) (now : ℕ) (from : String) (m : Message (Data Text))
      (s : R × Context Ack Text ℕ)
      → Inv sys
      → Member m sys.wire
      → w.process.on_message sys.receiver m from (fresh now) ≡ ok s
      → Inv (after_receiver sys s)
  arrive-Inv sys now from m s v mem h =
      let (at, near, short) = v.shared.in_flight m mem in
      let (s', run, a) =
        w.answers sys.inputs sys.delivered sys.receiver now from m v.holds at near short in
      subst (λ x. Inv (after_receiver sys x)) (ok-injective (sym run ∙ h))
        (rw a.answered (record {
          shared =
              Shared.grow-Inv limit delay sys (w.lower sys.receiver) (w.seen sys.receiver) v.shared
                s'.0 (sys.delivered ++ s'.1.sent_local) _ (w.lower s'.0) (w.seen s'.0) a.grows
                a.keeps a.had refl a.stops;
          holds = a.holds;
        }))

  pub Step-Inv :
      (s t : System Text (Sender Text) R Ack)
      → Step (Window.sender limit delay) w.process s t
      → Inv s
      → Inv t
  Step-Inv s t (submit now m (p, ctx) h) v = record {
    shared = Shared.submit-Inv limit delay s _ _ v.shared now m p ctx h;
    holds = w.holds_submit s.inputs m.body s.delivered s.receiver v.holds;
  }
  Step-Inv s t (arrive now from m r mem h) v = arrive-Inv s now from m r v mem h
  Step-Inv s t (acked now from m (p, ctx) mem h) v = record {
    shared = Shared.acked-Inv limit delay s _ _ v.shared now from m p ctx mem h;
    holds = v.holds;
  }
  Step-Inv s t (fire now k (p, ctx) armed h) v = record {
    shared = Shared.fire-Inv limit delay s _ _ v.shared now k p ctx h;
    holds = v.holds;
  }

  pub start-Inv :
      (proc_id receiver_id : String) (r : R)
      → w.Holds [] [] r
      → Inv (start (Window.init proc_id receiver_id) r)
  unfolding Dict.lookup
  start-Inv proc_id receiver_id r h = record {
    shared = record {
      counted = refl;
      behind = omega arith;
      stored = λ k t e. cc;
      armed = λ k t e. cc;
      popped = λ k lt e. absurd (omega arith);
      in_flight = λ m mem. absurd (not-Member-nil m mem);
      acked = λ a mem. absurd (not-Member-nil a mem);
      pairs = λ a b mem _ e. absurd (not-Member-nil a mem);
      ahead = λ a mem e. absurd (not-Member-nil a mem);
    };
    holds = h;
  }

  pub Reach-Inv :
      {s t : System Text (Sender Text) R Ack}
      → Inv s
      → Reach (Window.sender limit delay) w.process s t
      → Inv t
  Reach-Inv v r = Reach-induction (Window.sender limit delay) w.process Inv Step-Inv v r

  -- When the sender stores nothing, everything submitted lies below the receiver's bound.
  pub all_below :
      (s : System Text (Sender Text) R Ack)
      → Inv s
      → s.sender.message_store ≡ []
      → length s.inputs ≤ w.lower s.receiver
  unfolding Dict.lookup
  all_below s v e = elim (dec_lt (w.lower s.receiver) (length s.inputs)) [
    | no done ↦ omega arith
    | yes less ↦
        let (a, mem, order, below) =
          v.shared.popped (w.lower s.receiver) less (ap (Dict.lookup (w.lower s.receiver)) e) in
        absurd (
          ground (
            arith,
            (v.shared.acked a mem).1,
            ap (w.seen s.receiver) order,
            w.holds_stops s.inputs s.delivered s.receiver v.holds,
          ))
  ]
