-- ===== src/Guarantees/Window/Invariant.antt =====
-- The part of a run's invariant that the two windowed protocols share. `lower` and `seen` are what
-- the receiver has: every order below `lower`, and those that are `seen`.
use Prim.Native.String.{count}
use distsys_course_work.Prelude.{
  ℕ, ◌+◌, ◌≤◌, ◌<◌, ◌≡◌, String, Bool, true, false, none, some, List, [], ◌∷◌, ◌++◌, ◌≢◌, inl, inr,
  arith, max, nat_eq, nat_same, nat_same_iff, Bool-cases, Member, Member-append, Member-append_left,
  get_elem?, get_elem?-append_end, get_elem?-append_left, lt_of_get_elem?, length, length-append,
  not-Member-nil, eq_of_Member-one, ap, ◌∙◌, sym, subst,
}
use distsys_course_work.Prelude.Dict
use distsys_course_work.Prelude.HashSet
use distsys_course_work.Runtime.{Message, Context, ok, fresh, set, ok-injective, name_limit}
use distsys_course_work.Guarantees.{Data, Ack}
use distsys_course_work.Guarantees.Link.{System, after_sender, apply_timers}
use distsys_course_work.Guarantees.Window.{Sender, on_local_message, on_message, on_timer}
use distsys_course_work.Guarantees.Window.Cases.{
  SentInWindow, on_local_message_cases, on_timer_cases, sent-Member,
}

pub record Inv {Text R : Type 0} (limit : ℕ) (sys : System Text (Sender Text) R Ack) (lower : ℕ)
    (seen : ℕ → Bool) : Type 0 where
  pub counted : sys.sender.order ≡ length sys.inputs
  pub behind : sys.sender.order_lower_bound ≤ lower
  pub stored :
      (k : ℕ) (t : Text)
      → Dict.lookup k sys.sender.message_store ≡ some t
      → get_elem? sys.inputs k ≡ some t
  pub armed :
      (k : ℕ) (t : Text)
      → Dict.lookup k sys.sender.message_store ≡ some t
      → HashSet.contains k sys.timers ≡ true
  -- What is no longer stored was acknowledged.
  pub popped :
      (k : ℕ)
      → k < length sys.inputs
      → Dict.lookup k sys.sender.message_store ≡ none
      → (a : Message Ack) × Member a sys.acks
        × (a.body.order ≡ k)
        × (a.body.lower_bound ≤ sys.sender.order_lower_bound)
  pub in_flight :
      (m : Message (Data Text))
      → Member m sys.wire
      → (get_elem? sys.inputs m.body.order ≡ some m.body.text)
        × (m.body.order ≤ lower + limit)
        × (count m.type ≤ name_limit)
  pub acked :
      (a : Message Ack)
      → Member a sys.acks
      → (a.body.lower_bound ≤ lower) × (seen a.body.order ≡ true)
  -- An order at which some acknowledgement stopped is itself acknowledged only beyond.
  pub pairs :
      (a b : Message Ack)
      → Member a sys.acks
      → Member b sys.acks
      → a.body.order ≡ b.body.lower_bound
      → a.body.order < a.body.lower_bound
  pub ahead :
      (a : Message Ack)
      → Member a sys.acks
      → a.body.order ≡ sys.sender.order_lower_bound
      → a.body.order < a.body.lower_bound

module _ {Text R : Type 0} (limit delay : ℕ) (sys : System Text (Sender Text) R Ack) (lower : ℕ)
    (seen : ℕ → Bool) (inv : Inv limit sys lower seen) where
  lookup-submitted :
      (k : ℕ) (body t : Text)
      → Dict.lookup k (Dict.insert sys.sender.order body sys.sender.message_store) ≡ some t
      → get_elem? (sys.inputs ++ body ∷ []) k ≡ some t
  lookup-submitted k body t e = ground (
    arith,
    inv.counted,
    inv.stored k t,
    Dict.lookup-insert sys.sender.order k body sys.sender.message_store,
    get_elem?-append_end sys.inputs body k,
    get_elem?-append_left sys.inputs (body ∷ []) k,
    lt_of_get_elem? sys.inputs k t,
  )

  submitted :
      (now : ℕ) (body : Text) (ctx : Context (Data Text) Text ℕ)
      → SentInWindow limit delay sys.sender sys.sender.order body (fresh now) ctx
      → (ctx.timer_actions ≡ set sys.sender.order delay ∷ [])
      → Inv limit
          (after_sender
            (record sys { inputs = sys.inputs ++ body ∷ [] })
            (
              record sys.sender {
                message_store = Dict.insert sys.sender.order body sys.sender.message_store;
                order = sys.sender.order + 1;
              },
              ctx,
            ))
          lower
          seen
  unfolding apply_timers
  submitted now body ctx sent timed = record {
    counted = ground (arith, inv.counted, length-append sys.inputs (body ∷ []));
    behind = inv.behind;
    stored = λ k t e. lookup-submitted k body t e;
    armed = λ k t e. ground (
      arith,
      inv.armed k t,
      Dict.lookup-insert sys.sender.order k body sys.sender.message_store,
      HashSet.contains-add sys.sender.order k sys.timers,
    );
    popped = λ k lt e. ground (
      arith,
      inv.counted,
      length-append sys.inputs (body ∷ []),
      inv.popped k,
      Dict.lookup-insert sys.sender.order k body sys.sender.message_store,
    );
    in_flight = λ m mem. elim (Member-append m sys.wire _ mem) [
      | inl old ↦
          let (at, near, short) = inv.in_flight m old in
          (
            get_elem?-append_left sys.inputs (body ∷ []) m.body.order
                  (lt_of_get_elem? sys.inputs _ _ at)
                ∙ at,
            near,
            short,
          )
      | inr new ↦
          let (order, text, inside, short) =
            sent-Member limit delay sys.sender sys.sender.order now body ctx m sent new in
          (
            get_elem?-append_end sys.inputs body m.body.order (order ∙ inv.counted)
                ∙ ap some (sym text),
            ground (arith, inv.behind),
            short,
          )
    ];
    acked = inv.acked;
    pairs = inv.pairs;
    ahead = inv.ahead;
  }

  pub submit-Inv :
      (now : ℕ) (msg : Message Text) (s' : Sender Text) (ctx : Context (Data Text) Text ℕ)
      → on_local_message limit delay sys.sender msg (fresh now) ≡ ok (s', ctx)
      → Inv limit
          (after_sender (record sys { inputs = sys.inputs ++ msg.body ∷ [] }) (s', ctx))
          lower
          seen
  submit-Inv now msg s' ctx h =
      let (e, sent, timed) =
        on_local_message_cases limit delay sys.sender s' msg (fresh now) ctx h in
      rw e (submitted now msg.body ctx sent timed)

  pub acked-Inv :
      (now : ℕ) (from : String) (a : Message Ack) (s' : Sender Text)
      (ctx : Context (Data Text) Text ℕ)
      → Member a sys.acks
      → on_message limit delay sys.sender a from (fresh now) ≡ ok (s', ctx)
      → Inv limit (after_sender sys (s', ctx)) lower seen
  unfolding on_message apply_timers
  acked-Inv now from a s' ctx mem h =
      subst (λ r. Inv limit (after_sender sys r) lower seen) (ok-injective h) answered
    where
      answered :
          Inv limit
            (after_sender sys (
              record sys.sender {
                message_store = Dict.remove a.body.order sys.sender.message_store;
                order_lower_bound = max sys.sender.order_lower_bound a.body.lower_bound;
              },
              fresh now,
            ))
            lower
            seen
      answered = record {
        counted = inv.counted;
        behind = ground (arith, inv.behind, inv.acked a mem);
        stored = λ k t e.
            ground
              (arith, inv.stored k t, Dict.lookup-remove a.body.order k sys.sender.message_store);
        armed = λ k t e.
            ground
              (arith, inv.armed k t, Dict.lookup-remove a.body.order k sys.sender.message_store);
        popped = λ k lt e. elim (Bool-cases (nat_same a.body.order k)) [
          | inl same ↦ (a, mem, (nat_same_iff _ k).0 same, omega arith)
          | inr other ↦
              let (b, h, order, below) =
                inv.popped k lt
                  (ground (arith, Dict.lookup-remove a.body.order k sys.sender.message_store)) in
              (b, h, order, omega arith)
        ];
        in_flight = λ m h. elim (Member-append m sys.wire [] h) [
          | inl old ↦ inv.in_flight m old
          | inr new ↦ absurd (not-Member-nil m new)
        ];
        acked = inv.acked;
        pairs = inv.pairs;
        ahead = λ b h e. ground (arith, inv.ahead b h, inv.pairs b a h mem);
      }

  fired :
      (now t : ℕ) (text : Text) (ctx : Context (Data Text) Text ℕ)
      → Dict.lookup t sys.sender.message_store ≡ some text
      → SentInWindow limit delay sys.sender t text (fresh now) ctx
      → (ctx.timer_actions ≡ set t delay ∷ [])
      → Inv limit
          (after_sender (record sys { timers = HashSet.discard t sys.timers }) (sys.sender, ctx))
          lower
          seen
  unfolding apply_timers
  fired now t text ctx has sent timed = record {
    counted = inv.counted;
    behind = inv.behind;
    stored = inv.stored;
    armed = λ k u e. ground (
      arith,
      inv.armed k u,
      HashSet.contains-add t k (HashSet.discard t sys.timers),
      HashSet.contains-discard t k sys.timers,
    );
    popped = inv.popped;
    in_flight = λ m h. elim (Member-append m sys.wire _ h) [
      | inl old ↦ inv.in_flight m old
      | inr new ↦
          let (order, same, inside, short) =
            sent-Member limit delay sys.sender t now text ctx m sent new in
          (rw (order, same) (inv.stored t text has), ground (arith, inv.behind), short)
    ];
    acked = inv.acked;
    pairs = inv.pairs;
    ahead = inv.ahead;
  }

  expired :
      (now t : ℕ)
      → Dict.lookup t sys.sender.message_store ≡ none
      → Inv limit
          (after_sender
            (record sys { timers = HashSet.discard t sys.timers })
            (sys.sender, fresh now))
          lower
          seen
  unfolding apply_timers
  expired now t gone = record {
    counted = inv.counted;
    behind = inv.behind;
    stored = inv.stored;
    armed = λ k u e. ground (arith, inv.armed k u, HashSet.contains-discard t k sys.timers);
    popped = inv.popped;
    in_flight = λ m h. elim (Member-append m sys.wire [] h) [
      | inl old ↦ inv.in_flight m old
      | inr new ↦ absurd (not-Member-nil m new)
    ];
    acked = inv.acked;
    pairs = inv.pairs;
    ahead = inv.ahead;
  }

  pub fire-Inv :
      (now t : ℕ) (s' : Sender Text) (ctx : Context (Data Text) Text ℕ)
      → on_timer limit delay sys.sender t (fresh now) ≡ ok (s', ctx)
      → Inv limit
          (after_sender (record sys { timers = HashSet.discard t sys.timers }) (s', ctx))
          lower
          seen
  fire-Inv now t s' ctx h =
      let (e, did) = on_timer_cases limit delay sys.sender s' t (fresh now) ctx h in
      rw e (elim did [
        | inl (text, has, sent, timed) ↦ fired now t text ctx has sent timed
        | inr (gone, same) ↦ rw same (expired now t gone)
      ])

  -- The receiver moves on and acknowledges a message: its bound grows, it forgets nothing that it
  -- has seen, and it stops at an order that it has not seen.
  pub grow-Inv :
      (q : R) (ds : List (Message Text)) (ack : Message Ack) (lower' : ℕ) (seen' : ℕ → Bool)
      → lower ≤ lower'
      → ((k : ℕ) → seen k ≡ true → seen' k ≡ true)
      → seen' ack.body.order ≡ true
      → ack.body.lower_bound ≡ lower'
      → seen' lower' ≡ false
      → Inv limit
          (record sys { receiver = q; acks = sys.acks ++ ack ∷ []; delivered = ds })
          lower'
          seen'
  grow-Inv q ds ack lower' seen' grows keeps had bound stops = record {
    counted = inv.counted;
    behind = ground (arith, inv.behind);
    stored = inv.stored;
    armed = inv.armed;
    popped = λ k lt e.
        let (a, mem, order, below) = inv.popped k lt e in
        (a, Member-append_left a sys.acks (ack ∷ []) mem, order, below);
    in_flight = λ m h. let (at, near, short) = inv.in_flight m h in (at, omega arith, short);
    acked = λ a h. elim (Member-append a sys.acks (ack ∷ []) h) [
      | inl old ↦ let (below, was) = inv.acked a old in (omega arith, keeps a.body.order was)
      | inr new ↦ rw (eq_of_Member-one a ack new) (omega arith, had)
    ];
    pairs = λ a b ha hb e. elim (Member-append a sys.acks (ack ∷ []) ha) [
      | inl old ↦ elim (Member-append b sys.acks (ack ∷ []) hb) [
        | inl was ↦ inv.pairs a b old was e
        | inr new ↦ absurd (
            beyond a.body.order (keeps a.body.order (inv.acked a old).1)
              (e ∙ ap (λ m. m.body.lower_bound) (eq_of_Member-one b ack new) ∙ bound))
      ]
      | inr new ↦ first a new (elim (Member-append b sys.acks (ack ∷ []) hb) [
        | inl was ↦ omega (arith, inv.acked b was)
        | inr now ↦ omega (arith, ap (λ m. m.body.lower_bound) (eq_of_Member-one b ack now))
      ])
    ];
    ahead = λ a h e. elim (Member-append a sys.acks (ack ∷ []) h) [
      | inl old ↦ inv.ahead a old e
      | inr new ↦ first a new (omega (arith, inv.behind))
    ];
  }
    where
      beyond : (k : ℕ) → seen' k ≡ true → k ≢ lower'
      beyond k was e = cc

      first :
          (a : Message Ack)
          → Member a (ack ∷ [])
          → a.body.order ≤ lower'
          → a.body.order < a.body.lower_bound
      first a new small = ground (
        arith,
        beyond ack.body.order had,
        ap (λ m. m.body.order) (eq_of_Member-one a ack new),
        ap (λ m. m.body.lower_bound) (eq_of_Member-one a ack new),
      )
