-- ===== src/Broadcast/Rounds.antt =====
-- update_deliver: each round delivers messages that follow the log, and raises nothing.
use mathlib.Core.List.{map-append, append_assoc}
use native.Mathlib.Nat.{le_refl}
use distsys_course_work.Prelude.{
  ℕ, suc, ◌<◌, ◌≡◌, refl, ◌⊎◌, inl, inr, Bool, true, false, List, [], ◌∷◌, ◌++◌, if◌then◌else◌,
  length, arith, Bool-cases, All, All-map, ap, ◌∙◌, subst, sym,
}
use distsys_course_work.Prelude.Dict
use distsys_course_work.Runtime.{Message, ok, ok-injective, ◌>>=◌}
use distsys_course_work.Runtime.Loop.{while_ok}
use distsys_course_work.Guarantees.Log.{texts}
use distsys_course_work.Broadcast.{
  is_casually_ordered, deliver_round, update_step, update_deliver, is_updated, message_hash,
}
use distsys_course_work.Broadcast.State.{
  MessageHash, hash_eq, Bcast, BroadcastProcess, Sent, pop_all,
}
use distsys_course_work.Broadcast.Causality.{count_from, texts_of}
use distsys_course_work.Broadcast.Deliver.{
  Waiting, Waiting-deliver, Wf, ordered-Follows, deliver_message-Wf,
}
use distsys_course_work.Broadcast.Popping.{Picked, pop_all-Popped}

module _ {Text : Type 0} (n : ℕ) (prior : List (Message Text)) where
  -- What the user has been told so far is the log.
  abbrev pub Told : Sent Text → List (Bcast Text) → Type 0
  Told ctx log = texts (prior ++ ctx.sent_local) ≡ texts_of log

  -- The stored messages are not in causal order now.
  abbrev pub NotReady : BroadcastProcess Text → List (MessageHash × Message (Bcast Text)) → Type 0
  NotReady self = All (λ e. is_casually_ordered self e.1 ≡ ok false)

  pub Told-deliver :
      (ctx : Sent Text) (log : List (Bcast Text)) (b : Bcast Text)
      → Told ctx log
      → texts (prior ++ (ctx.sent_local ++ record { type = "DELIVER"; body = b.text } ∷ []))
        ≡ texts_of (b ∷ log)
  Told-deliver ctx log b told = rw (← append_assoc, map-append, told) refl

  -- Where a callback stands after deliveries: its log, and what it has not touched.
  pub record Delivered (log : List (Bcast Text)) (self0 : BroadcastProcess Text) (ctx0 : Sent Text)
      (self : BroadcastProcess Text) (ctx : Sent Text) : Type 0 where
    pub wf : Wf n log self
    pub told : Told ctx log
    pub processes : self.processes ≡ self0.processes
    pub id : self.id ≡ self0.id
    pub sent : ctx.sent ≡ ctx0.sent

  -- The state, the context, the delivered hashes and `is_update` after a loop over `todo`.
  abbrev RoundEnds :
      List (MessageHash × Message (Bcast Text)) → BroadcastProcess Text → Sent Text → Type 0
  RoundEnds todo self ctx =
      (self' : BroadcastProcess Text) × (ctx' : Sent Text) × (hs : List MessageHash)
      × (is_update : Bool) × (log : List (Bcast Text)) × (deliver_round todo self ctx
          ≡ ok (self', ctx', hs, is_update))
      × Delivered log self ctx self' ctx'
      × (self'.messages_buffer ≡ self.messages_buffer)
      × Picked hs todo
      × (is_update ≡ true → 0 < length hs)
      × (is_update ≡ false → (hs ≡ []) × (self' ≡ self) × NotReady self todo)

  not_passed :
      (log : List (Bcast Text)) (self : BroadcastProcess Text) (h : MessageHash)
      → (msg : Message (Bcast Text)) → h ≡ message_hash msg
      → msg.body.counter ≡ count_from msg.body.sender log
      → (msg.body.counter < count_from msg.body.sender log)
        ⊎ (Dict.has h self.messages_broadcasters ≡ true)
      → Dict.has (message_hash msg) self.messages_broadcasters ≡ true
  not_passed log self h msg own next (inl passed) = absurd (omega arith)
  not_passed log self h msg own next (inr known) = rw (← own) known

  deliver_round-Ends :
      (todo : List (MessageHash × Message (Bcast Text))) (log : List (Bcast Text))
      → (self : BroadcastProcess Text) (ctx : Sent Text) → Wf n log self
      → Told ctx log
      → All (Waiting n log self.messages_broadcasters) todo
      → RoundEnds todo self ctx
  unfolding deliver_round
  deliver_round-Ends [] log self ctx w told all = (
    self,
    ctx,
    [],
    false,
    log,
    refl,
    record { wf = w; told = told; processes = refl; id = refl; sent = refl },
    refl,
    refl,
    λ e. cc,
    λ e. (refl, refl, tt),
  )
  deliver_round-Ends ((h, msg) ∷ todo) log self ctx w told all =
      let (own, bcast, state) = all.0 in
      let (b, test, follows) = ordered-Follows n log self msg w bcast in
      elim (Bool-cases b) [
        | inl is_next ↦
            let known = not_passed log self h msg own (follows is_next).0 state in
            let (self1, deliver, w1, buffer1, processes1, id1, known1) =
              deliver_message-Wf n log self msg ctx w bcast known (follows is_next) in
            let waiting : All (Waiting n (msg.body ∷ log) self1.messages_broadcasters) todo =
              rw known1 (
                All-map _ _
                  (Waiting-deliver n log self.messages_broadcasters msg (follows is_next).0) todo
                  all.1) in
            let (self', ctx', hs, is_update, log', run, d, buffer, picked, some_, none_) =
              deliver_round-Ends todo (msg.body ∷ log) self1
                (record ctx {
                  sent_local =
                      ctx.sent_local ++ record { type = "DELIVER"; body = msg.body.text } ∷ [];
                })
                w1 (Told-deliver ctx log msg.body told) waiting in
            (
              self',
              ctx',
              h ∷ hs,
              true,
              log',
              rw (test, ◌>>=◌, is_next, deliver, run) refl,
              record {
                wf = d.wf;
                told = d.told;
                processes = d.processes ∙ processes1;
                id = d.id ∙ id1;
                sent = d.sent;
              },
              buffer ∙ buffer1,
              inr (hs, refl, picked),
              λ e. omega arith,
              λ e. cc,
            )
        | inr waits ↦
            let (self', ctx', hs, is_update, log', run, d, buffer, picked, some_, none_) =
              deliver_round-Ends todo log self ctx w told all.1 in
            (
              self',
              ctx',
              hs,
              is_update,
              log',
              rw (test, ◌>>=◌, waits) run,
              d,
              buffer,
              inl picked,
              some_,
              λ e. let (empty, kept, ready) = none_ e in (empty, kept, (test ∙ ap ok waits, ready)),
            )
      ]

  -- The invariant of the loop of update_deliver.
  abbrev pub Updating :
      BroadcastProcess Text → Sent Text → BroadcastProcess Text × Sent Text × Bool → Type 0
  Updating self0 ctx0 (self, ctx, is_update) =
      (log : List (Bcast Text)) × Delivered log self0 ctx0 self ctx
      × (is_update ≡ false → NotReady self self.messages_buffer)

  abbrev left : BroadcastProcess Text × Sent Text × Bool → ℕ
  left (self, ctx, is_update) = if is_update then suc (length self.messages_buffer) else 0

  nothing_popped :
      (hs : List MessageHash) (d d' : List (MessageHash × Message (Bcast Text)))
      → pop_all hs d ≡ ok d'
      → hs ≡ []
      → d ≡ d'
  unfolding pop_all
  nothing_popped hs d d' run empty = ok-injective (sym (ap (λ k. pop_all k d) empty) ∙ run)

  NotReady-buffer :
      (self : BroadcastProcess Text) (d : List (MessageHash × Message (Bcast Text)))
      → NotReady self d
      → NotReady (record self { messages_buffer = d }) d
  unfolding is_casually_ordered
  NotReady-buffer self d ready = ready

  still-NotReady :
      (self self' : BroadcastProcess Text) (hs : List MessageHash)
      → (kept : List (MessageHash × Message (Bcast Text)))
      → pop_all hs self'.messages_buffer ≡ ok kept
      → (hs ≡ []) × (self' ≡ self) × NotReady self self.messages_buffer
      → NotReady (record self' { messages_buffer = kept }) kept
  still-NotReady self self' hs kept popped (empty, same, ready) =
      let ready' = subst (λ s. NotReady s s.messages_buffer) (sym same) ready in
      NotReady-buffer self' kept
        (subst (NotReady self') (nothing_popped hs self'.messages_buffer kept popped empty) ready')

  update_step-Updating :
      (self0 : BroadcastProcess Text) (ctx0 : Sent Text)
      → (s : BroadcastProcess Text × Sent Text × Bool) → Updating self0 ctx0 s
      → is_updated s ≡ true
      → (s' : BroadcastProcess Text × Sent Text × Bool) × (update_step s ≡ ok s')
        × Updating self0 ctx0 s'
        × (left s' < left s)
  unfolding update_step
  update_step-Updating self0 ctx0 (self, ctx, is_update) (log, d, ready) more =
      let (self', ctx', hs, again, log', run, d', buffer, picked, some_, none_) =
        deliver_round-Ends self.messages_buffer log self ctx d.wf d.told d.wf.waiting in
      let (kept, popped, fewer, dict, waiting) =
        pop_all-Popped (Waiting n log' self'.messages_broadcasters) hs self'.messages_buffer
          d'.wf.dict d'.wf.waiting (rw buffer picked) in
      (
        (record self' { messages_buffer = kept }, ctx', again),
        rw (run, ◌>>=◌, popped) refl,
        (
          log',
          record {
            wf = record {
              size = d'.wf.size;
              counts = d'.wf.counts;
              causal = d'.wf.causal;
              waiting = waiting;
              dict = dict;
            };
            told = d'.told;
            processes = d'.processes ∙ d.processes;
            id = d'.id ∙ d.id;
            sent = d'.sent ∙ d.sent;
          },
          λ e. still-NotReady self self' hs kept popped (none_ e),
        ),
        ground (arith, more, some_, fewer, ap length buffer),
      )

  -- With the fuel it has, update_deliver ends by its own test, at a state where no stored message is
  -- in causal order.
  pub update_deliver-Delivered :
      (log : List (Bcast Text)) (self : BroadcastProcess Text) (ctx : Sent Text)
      → Wf n log self
      → Told ctx log
      → (self' : BroadcastProcess Text) × (ctx' : Sent Text) × (log' : List (Bcast Text))
        × (update_deliver self ctx ≡ ok (self', ctx'))
        × Delivered log' self ctx self' ctx'
        × NotReady self' self'.messages_buffer
  unfolding update_deliver
  update_deliver-Delivered log self ctx w told =
      let ((self', ctx', is_update), run, (log', d, ready), done) =
        while_ok (Updating self ctx) left is_updated update_step (update_step-Updating self ctx)
          (suc (length self.messages_buffer)) (self, ctx, true) (le_refl _)
          (
            log,
            record { wf = w; told = told; processes = refl; id = refl; sent = refl },
            λ e. cc,
          ) in
      (self', ctx', log', rw (run, ◌>>=◌) refl, d, ready done)
