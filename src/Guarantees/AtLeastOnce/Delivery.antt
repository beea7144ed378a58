-- ===== src/Guarantees/AtLeastOnce/Delivery.antt =====
-- What the at-least-once pair guarantees over the network.
use mathlib.Core.List.{map, map-append}
use distsys_course_work.Prelude.{
  ℕ, ◌+◌, ◌<◌, ◌≡◌, refl, String, some, none, List, [], ◌∷◌, ◌++◌, inl, inr, arith, nat_eq,
  nat_same, nat_same_iff, get_elem?, get_elem?-append_end, get_elem?-append_left, lt_of_get_elem?,
  length, length-append, subst, ap, ◌∙◌, sym, Member, Member-append, Member-append_left,
  Member-append_end, eq_of_Member-one, not-Member-nil, Bool-cases, Option-cases, ◌⊎◌,
  some-injective,
}
use distsys_course_work.Prelude.Dict
use distsys_course_work.Runtime.{Message, Context, fresh, ok, ok-injective}
use distsys_course_work.Guarantees.{Data}
use distsys_course_work.Guarantees.Link.{
  System, Step, submit, arrive, acked, fire, Reach, Reach-induction, start, after_sender,
  after_receiver,
}
use distsys_course_work.Guarantees.Log.{texts}
use distsys_course_work.Guarantees.AtLeastOnce.{
  OrderAck, Sender, Receiver, init_sender, init, sender, receiver, on_local_message, on_ack,
  on_timer, on_message,
}

module _ {Text : Type 0} where
  -- The text submitted under the order has reached the user of the receiver.
  abbrev pub Reached : List Text → List (Message Text) → ℕ → Type 0
  Reached inputs delivered k = (t : Text) → get_elem? inputs k ≡ some t → Member t (texts delivered)

  record Inv (sys : System Text (Sender Text) Receiver OrderAck) : Type 0 where
    counted : sys.sender.order ≡ length sys.inputs
    stored :
        (k : ℕ) (t : Text)
        → Dict.lookup k sys.sender.message_store ≡ some t
        → get_elem? sys.inputs k ≡ some t
    in_flight :
        (m : Message (Data Text))
        → Member m sys.wire
        → get_elem? sys.inputs m.body.order ≡ some m.body.text
    popped :
        (k : ℕ)
        → k < length sys.inputs
        → Dict.lookup k sys.sender.message_store ≡ none
        → Reached sys.inputs sys.delivered k
    answered :
        (a : Message OrderAck)
        → Member a sys.acks
        → (a.body.order < length sys.inputs) × Reached sys.inputs sys.delivered a.body.order
    genuine : (t : Text) → Member t (texts sys.delivered) → Member t sys.inputs

  Reached-submit :
      (inputs : List Text) (body : Text) (ds : List (Message Text)) (k : ℕ)
      → k < length inputs
      → Reached inputs ds k
      → Reached (inputs ++ body ∷ []) ds k
  Reached-submit inputs body ds k lt h t e =
      h t (sym (get_elem?-append_left inputs (body ∷ []) k lt) ∙ e)

  submit_cases :
      (s s' : Sender Text) (m : Message Text) (now : ℕ) (ctx : Context (Data Text) Text ℕ)
      → on_local_message s m (fresh now) ≡ ok (s', ctx)
      → (s' ≡ record s {
        message_store = Dict.insert s.order m.body s.message_store;
        order = s.order + 1;
      })
        × (ctx.sent
            ≡ (
              record { type = m.type; body = record { order = s.order; text = m.body } },
              s.receiver,
            )
              ∷ [])
  unfolding on_local_message
  submit_cases s s' m now ctx e = ground arith

  submit-Inv :
      (sys : System Text (Sender Text) Receiver OrderAck) (now : ℕ) (m : Message Text)
      (s' : Sender Text) (ctx : Context (Data Text) Text ℕ)
      → Inv sys
      → on_local_message sys.sender m (fresh now) ≡ ok (s', ctx)
      → Inv (after_sender (record sys { inputs = sys.inputs ++ m.body ∷ [] }) (s', ctx))
  submit-Inv sys now m s' ctx v e =
      let (next, sent) = submit_cases sys.sender s' m now ctx e in
      let found =
        λ (k : ℕ). Dict.lookup-insert sys.sender.order k m.body sys.sender.message_store in
      let longer = length-append sys.inputs (m.body ∷ []) in
      rw (next, sent)
        (record {
          counted = ground (arith, v.counted, longer);
          stored = λ k t e. ground (
            arith,
            v.counted,
            v.stored k t,
            found k,
            get_elem?-append_end sys.inputs m.body k,
            get_elem?-append_left sys.inputs (m.body ∷ []) k,
            lt_of_get_elem? sys.inputs k t,
          );
          in_flight = λ x mem. elim (Member-append x sys.wire _ mem) [
            | inl old ↦
                let at = v.in_flight x old in
                get_elem?-append_left sys.inputs (m.body ∷ []) x.body.order
                  (lt_of_get_elem? sys.inputs _ _ at)
                ∙ at
            | inr new ↦
                let one = eq_of_Member-one x _ new in
                get_elem?-append_end sys.inputs m.body x.body.order
                  (ap (λ y. y.body.order) one ∙ v.counted)
                ∙ ap (λ y. some y.body.text) (sym one)
          ];
          popped = λ k lt e.
              let old : k < length sys.inputs = ground (arith, v.counted, longer, found k) in
              Reached-submit sys.inputs m.body sys.delivered k old
                (v.popped k old (ground (arith, found k)));
          answered = λ a mem.
              let (lt, r) = v.answered a mem in
              (
                omega (arith, longer),
                Reached-submit sys.inputs m.body sys.delivered a.body.order lt r,
              );
          genuine = λ t mem. Member-append_left t sys.inputs (m.body ∷ []) (v.genuine t mem);
        })

  arrive_cases :
      (r r' : Receiver) (m : Message (Data Text)) (from : String) (now : ℕ)
      (ctx : Context OrderAck Text ℕ)
      → on_message r m from (fresh now) ≡ ok (r', ctx)
      → (ctx.sent_local ≡ record { type = m.type; body = m.body.text } ∷ [])
        × (ctx.sent
            ≡ (record { type = "MESSAGE"; body = record { order = m.body.order } }, from) ∷ [])
  unfolding on_message
  arrive_cases r r' m from now ctx e = ground arith

  arrive-Inv :
      (sys : System Text (Sender Text) Receiver OrderAck) (now : ℕ) (from : String)
      (m : Message (Data Text)) (r' : Receiver) (ctx : Context OrderAck Text ℕ)
      → Inv sys
      → Member m sys.wire
      → on_message sys.receiver m from (fresh now) ≡ ok (r', ctx)
      → Inv (after_receiver sys (r', ctx))
  arrive-Inv sys now from m r' ctx v mem e =
      let (told, sent) = arrive_cases sys.receiver r' m from now ctx e in
      let at = v.in_flight m mem in
      let one : List (Message Text) = record { type = m.type; body = m.body.text } ∷ [] in
      let both : texts (sys.delivered ++ one) ≡ texts sys.delivered ++ m.body.text ∷ [] =
        map-append (λ x. x.body) sys.delivered one in
      let keeps = λ (t : Text) (h : Member t (texts sys.delivered)).
        subst (Member t) (sym both) (Member-append_left t (texts sys.delivered) _ h) in
      rw (told, sent)
        (record {
          counted = v.counted;
          stored = v.stored;
          in_flight = v.in_flight;
          popped = λ k lt gone t f. keeps t (v.popped k lt gone t f);
          answered = λ a mem. elim (Member-append a sys.acks _ mem) [
            | inl old ↦ let (lt, h) = v.answered a old in (lt, λ t f. keeps t (h t f))
            | inr new ↦
                let k = ap (λ x. x.body.order) (eq_of_Member-one a _ new) in
                (
                  omega (arith, k, lt_of_get_elem? sys.inputs _ _ at),
                  λ t f.
                      subst (λ l. Member t l) (sym both)
                        (subst (λ u. Member t (texts sys.delivered ++ u ∷ []))
                          (some-injective _ _ (sym f ∙ ap (get_elem? sys.inputs) k ∙ at))
                          (Member-append_end (texts sys.delivered) t)),
                )
          ];
          genuine = λ t h.
              elim (Member-append t (texts sys.delivered) _ (subst (Member t) both h)) [
                | inl old ↦ v.genuine t old
                | inr new ↦ (m.body.order, at ∙ ap some (sym (eq_of_Member-one t _ new)))
              ];
        })

  acked-Inv :
      (sys : System Text (Sender Text) Receiver OrderAck) (now : ℕ) (a : Message OrderAck)
      → Inv sys
      → Member a sys.acks
      → Inv (
          after_sender sys (
            record sys.sender { message_store = Dict.remove a.body.order sys.sender.message_store },
            fresh now,
          ))
  acked-Inv sys now a v mem = record {
    counted = v.counted;
    stored = λ k t e.
        ground (arith, v.stored k t, Dict.lookup-remove a.body.order k sys.sender.message_store);
    in_flight = λ m h. elim (Member-append m sys.wire [] h) [
      | inl old ↦ v.in_flight m old
      | inr new ↦ absurd (not-Member-nil m new)
    ];
    popped = λ k lt e. elim (Bool-cases (nat_same a.body.order k)) [
      | inl same ↦
          subst (Reached sys.inputs sys.delivered) ((nat_same_iff _ k).0 same) (v.answered a mem).1
      | inr other ↦
          v.popped k lt (ground (arith, Dict.lookup-remove a.body.order k sys.sender.message_store))
    ];
    answered = v.answered;
    genuine = v.genuine;
  }

  fire_cases :
      (s s' : Sender Text) (k now : ℕ) (ctx : Context (Data Text) Text ℕ)
      → on_timer s k (fresh now) ≡ ok (s', ctx)
      → (s' ≡ s)
        × (((t : Text) × (Dict.lookup k s.message_store ≡ some t)
              × (ctx.sent
                  ≡ (record { type = "MESSAGE"; body = record { order = k; text = t } }, s.receiver)
                    ∷ []))
            ⊎ (ctx.sent ≡ []))
  unfolding on_timer
  fire_cases s s' k now ctx e = elim (Option-cases (Dict.lookup k s.message_store)) [
    | inl gone ↦ (ground arith, inr (ground arith))
    | inr (t, has) ↦ (ground arith, inl (t, has, ground arith))
  ]

  fire-Inv :
      (sys : System Text (Sender Text) Receiver OrderAck) (now k : ℕ) (ts : List ℕ)
      (s' : Sender Text) (ctx : Context (Data Text) Text ℕ)
      → Inv sys
      → on_timer sys.sender k (fresh now) ≡ ok (s', ctx)
      → Inv (after_sender (record sys { timers = ts }) (s', ctx))
  fire-Inv sys now k ts s' ctx v e =
      let (same, did) = fire_cases sys.sender s' k now ctx e in
      rw same (record {
        counted = v.counted;
        stored = v.stored;
        in_flight = λ m h. elim (Member-append m sys.wire _ h) [
          | inl old ↦ v.in_flight m old
          | inr new ↦ elim did [
            | inl (t, has, sent) ↦
                let one =
                  eq_of_Member-one m _ (subst (λ l. Member m (map (λ p. p.0) l)) sent new) in
                ap (λ x. get_elem? sys.inputs x.body.order) one
                ∙ v.stored k t has
                ∙ ap (λ x. some x.body.text) (sym one)
            | inr sent ↦
                absurd (not-Member-nil m (subst (λ l. Member m (map (λ p. p.0) l)) sent new))
          ]
        ];
        popped = v.popped;
        answered = v.answered;
        genuine = v.genuine;
      })

  Step-Inv :
      (s t : System Text (Sender Text) Receiver OrderAck) → Step sender receiver s t → Inv s → Inv t
  unfolding on_ack
  Step-Inv s t (submit now m (p, ctx) e) v = submit-Inv s now m p ctx v e
  Step-Inv s t (arrive now from m (r, ctx) mem e) v = arrive-Inv s now from m r ctx v mem e
  Step-Inv s t (acked now from m r mem e) v =
      subst (λ x. Inv (after_sender s x)) (ok-injective e) (acked-Inv s now m v mem)
  Step-Inv s t (fire now k (p, ctx) armed e) v = fire-Inv s now k _ p ctx v e

  -- The states of the runs of a fresh pair of processes.
  abbrev pub Run : String → String → System Text (Sender Text) Receiver OrderAck → Type 0
  Run a b = Reach sender receiver (start (init_sender a b) (init b))

  Run-Inv : (a b : String) (s : System Text (Sender Text) Receiver OrderAck) → Run a b s → Inv s
  unfolding Dict.lookup
  Run-Inv a b s run =
      Reach-induction sender receiver Inv Step-Inv
        (record {
          counted = refl;
          stored = λ k t e. cc;
          in_flight = λ m mem. absurd (not-Member-nil m mem);
          popped = λ k lt e. absurd (omega arith);
          answered = λ m mem. absurd (not-Member-nil m mem);
          genuine = λ m mem. absurd (not-Member-nil m mem);
        })
        run

  -- In every run, a submitted text whose message the sender no longer stores has reached the user
  -- of the receiver, and that user gets no text that was not submitted.
  pub forgotten_only_when_delivered :
      (a b : String) (s : System Text (Sender Text) Receiver OrderAck)
      → Run a b s
      → ((k : ℕ) (t : Text)
          → get_elem? s.inputs k ≡ some t
          → Dict.lookup k s.sender.message_store ≡ none
          → Member t (texts s.delivered))
        × ((t : Text) → Member t (texts s.delivered) → Member t s.inputs)
  forgotten_only_when_delivered a b s run =
      let v = Run-Inv a b s run in
      (λ k t e gone. v.popped k (lt_of_get_elem? s.inputs k t e) gone t e, v.genuine)
