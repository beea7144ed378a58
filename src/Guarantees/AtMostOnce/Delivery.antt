-- ===== src/Guarantees/AtMostOnce/Delivery.antt =====
-- What the at-most-once pair guarantees over the network.
use distsys_course_work.Prelude.{
  ℕ, ◌+◌, ◌<◌, ◌≡◌, refl, String, false, some, List, [], ◌∷◌, ◌++◌, inl, inr, arith, nat_eq,
  get_elem?, get_elem?-append_end, get_elem?-append_left, lt_of_get_elem?, length, length-append,
  subst, ap, ◌∙◌, sym, Member, Member-append, eq_of_Member-one, not-Member-nil,
}
use distsys_course_work.Prelude.HashSet
use distsys_course_work.Runtime.{Message, Context, fresh, ok, ok-injective}
use distsys_course_work.Guarantees.{Data, Ack}
use distsys_course_work.Guarantees.Link.{
  System, Step, submit, arrive, acked, fire, Reach, Reach-induction, start, after_sender,
}
use distsys_course_work.Guarantees.Log.{texts, IsDistinct, Told}
use distsys_course_work.Guarantees.AtMostOnce.{
  Sender, Receiver, init_sender, init, sender, receiver, on_local_message,
}
use distsys_course_work.Guarantees.AtMostOnce.Arrival.{
  ThreeLater, Held, Held-submit, on_message-Held,
}

module _ {Text : Type 0} where
  record Inv (sys : System Text Sender Receiver Ack) : Type 0 where
    counted : sys.sender.order ≡ length sys.inputs
    in_flight :
        (m : Message (Data Text))
        → Member m sys.wire
        → get_elem? sys.inputs m.body.order ≡ some m.body.text
    holds : Held sys.inputs sys.delivered sys.receiver

  submit_cases :
      (s s' : Sender) (m : Message Text) (now : ℕ) (ctx : Context (Data Text) Text ℕ)
      → on_local_message s m (fresh now) ≡ ok (s', ctx)
      → (s' ≡ record s { order = s.order + 1 })
        × (ctx.sent
            ≡ (
              record { type = m.type; body = record { order = s.order; text = m.body } },
              s.receiver,
            )
              ∷ [])
  unfolding on_local_message
  submit_cases s s' m now ctx e = ground arith

  submit-Inv :
      (sys : System Text Sender Receiver Ack) (now : ℕ) (m : Message Text) (s' : Sender)
      (ctx : Context (Data Text) Text ℕ)
      → Inv sys
      → on_local_message sys.sender m (fresh now) ≡ ok (s', ctx)
      → Inv (after_sender (record sys { inputs = sys.inputs ++ m.body ∷ [] }) (s', ctx))
  submit-Inv sys now m s' ctx v e =
      let (next, sent) = submit_cases sys.sender s' m now ctx e in
      rw (next, sent)
        (record {
          counted = ground (arith, v.counted, length-append sys.inputs (m.body ∷ []));
          in_flight = λ x mem. elim (Member-append x sys.wire _ mem) [
            | inl old ↦
                let at = v.in_flight x old in
                get_elem?-append_left sys.inputs (m.body ∷ []) x.body.order
                  (lt_of_get_elem? sys.inputs _ _ at)
                ∙ at
            | inr new ↦
                let one = eq_of_Member-one x _ new in
                get_elem?-append_end sys.inputs m.body x.body.order
                  (ap (λ y. y.body.order) one ∙ v.counted)
                ∙ ap (λ y. some y.body.text) (sym one)
          ];
          holds = Held-submit sys.inputs sys.delivered sys.receiver v.holds m.body;
        })

  -- The callbacks that do nothing.
  unchanged :
      (sys : System Text Sender Receiver Ack) (now : ℕ) (ts : List ℕ)
      → Inv sys
      → Inv (after_sender (record sys { timers = ts }) (sys.sender, fresh now))
  unchanged sys now ts v = record {
    counted = v.counted;
    in_flight = λ m mem. elim (Member-append m sys.wire [] mem) [
      | inl old ↦ v.in_flight m old
      | inr new ↦ absurd (not-Member-nil m new)
    ];
    holds = v.holds;
  }

  Step-Inv : (s t : System Text Sender Receiver Ack) → Step sender receiver s t → Inv s → Inv t
  Step-Inv s t (submit now m (p, ctx) e) v = submit-Inv s now m p ctx v e
  Step-Inv s t (arrive now from m r mem e) v = record {
    counted = v.counted;
    in_flight = v.in_flight;
    holds =
        on_message-Held s.inputs s.delivered s.receiver v.holds now m from (v.in_flight m mem) r e;
  }
  Step-Inv s t (acked now from m (p, ctx) mem e) v =
      subst (λ r. Inv (after_sender s r)) (ok-injective e) (unchanged s now s.timers v)
  Step-Inv s t (fire now k (p, ctx) armed e) v =
      subst (λ r. Inv (after_sender (record s { timers = HashSet.discard k s.timers }) r))
        (ok-injective e) (unchanged s now _ v)

  -- The states of the runs of a fresh pair of processes.
  abbrev pub Run : String → String → System Text Sender Receiver Ack → Type 0
  Run a b = Reach sender receiver (start (init_sender a b) (init b))

  Run-Inv : (a b : String) (s : System Text Sender Receiver Ack) → Run a b s → Inv s
  unfolding HashSet.contains
  Run-Inv a b s run =
      Reach-induction sender receiver Inv Step-Inv
        (record {
          counted = refl;
          in_flight = λ m mem. absurd (not-Member-nil m mem);
          holds = record {
            orders = [];
            distinct = tt;
            told = tt;
            old = λ k e. cc;
            stored = λ k e. e;
            above = λ k e. cc;
            skipped = λ k lt e. absurd (omega arith);
          };
        })
        run

  -- In every run, whatever the network loses, repeats or reorders, the user of the receiver has
  -- been told the texts of distinct orders, one for one. Every order below the receiver's bound
  -- that was not told lies before three consecutive orders that were.
  pub delivered_at_most_once :
      (a b : String) (s : System Text Sender Receiver Ack)
      → Run a b s
      → (orders : List ℕ) × IsDistinct orders
        × Told s.inputs orders (texts s.delivered)
        × ((k : ℕ)
            → k < s.receiver.order_lower_bound
            → HashSet.contains k orders ≡ false
            → ThreeLater orders k)
  delivered_at_most_once a b s run =
      let h = (Run-Inv a b s run).holds in (h.orders, h.distinct, h.told, h.skipped)
