-- ===== src/Broadcast/Arrival.antt =====
-- BroadcastProcess.on_message: it raises nothing on a message of one of the processes, and keeps
-- the invariant.
use Prim.Native.String.{count}
use distsys_course_work.Prelude.{
  ℕ, ◌+◌, ◌≡◌, refl, inl, inr, String, true, false, some, List, [], ◌∷◌, ◌++◌, text_eq, nat_eq, ltb,
  ap, if◌then◌else◌, arith, Bool-cases, All-map, ◌∙◌,
}
use distsys_course_work.Prelude.Dict
use distsys_course_work.Prelude.HashSet
use distsys_course_work.Runtime.{Message, Result, ok, ◌>>=◌, send, name_limit}
use distsys_course_work.Guarantees.Log.{texts}
use distsys_course_work.Broadcast.{
  is_casually_ordered, best_effort_broadcast, relay, deliver_or_buffer, is_deliverable, on_message,
  on_local_message, message_hash,
}
use distsys_course_work.Broadcast.State.{
  MessageHash, hash_same, hash_eq, hash_same_iff, Bcast, BroadcastProcess, Sent, process_id,
  add_broadcaster, broadcasters,
}
use distsys_course_work.Broadcast.Deliver.{
  IsBcast, Waiting, Wf, ordered-Follows, deliver_message-Wf,
}
use distsys_course_work.Broadcast.Rounds.{Told, NotReady, Told-deliver, update_deliver-Delivered}

has-add_broadcaster :
    (h k : MessageHash) (i : ℕ) (known : List (MessageHash × List ℕ))
    → Dict.has k (add_broadcaster h i known) ≡ (if hash_same h k then true else Dict.has k known)
unfolding add_broadcaster
has-add_broadcaster h k i known = Dict.has-insert h k _ known

module _ {Text : Type 0} where
  broadcast_sends :
      (processes : List (String × ℕ)) (msg : Message (Bcast Text)) (ctx : Sent Text)
      → ltb name_limit (count msg.type) ≡ false
      → (ctx' : Sent Text) × (best_effort_broadcast processes msg ctx ≡ ok ctx')
        × (ctx'.sent_local ≡ ctx.sent_local)
  unfolding best_effort_broadcast send
  broadcast_sends [] msg ctx short = (ctx, refl, refl)
  broadcast_sends ((proc, i) ∷ processes) msg ctx short =
      let (ctx', run, same) =
        broadcast_sends processes msg (record ctx { sent = ctx.sent ++ (msg, proc) ∷ [] }) short in
      (ctx', rw (short, if◌then◌else◌, ◌>>=◌) run, same)

  -- A process that has one broadcaster more.
  abbrev with_broadcaster : MessageHash → ℕ → BroadcastProcess Text → BroadcastProcess Text
  with_broadcaster h i self = record self {
    messages_broadcasters = add_broadcaster h i self.messages_broadcasters;
  }

  Waiting-broadcaster :
      (n : ℕ) (log : List (Bcast Text)) (h : MessageHash) (i : ℕ)
      (known : List (MessageHash × List ℕ))
      → (entry : MessageHash × Message (Bcast Text)) → Waiting n log known entry
      → Waiting n log (add_broadcaster h i known) entry
  Waiting-broadcaster n log h i known (k, msg) (own, bcast, inl passed) = (own, bcast, inl passed)
  Waiting-broadcaster n log h i known (k, msg) (own, bcast, inr there) =
      (own, bcast, inr (ground (arith, has-add_broadcaster h k i known, there)))

  -- What holds between two callbacks.
  pub record Settled (n : ℕ) (prior : List (Message Text)) (log : List (Bcast Text))
      (self : BroadcastProcess Text) (ctx : Sent Text) : Type 0 where
    pub wf : Wf n log self
    pub told : Told n prior ctx log
    pub ready : NotReady n prior self self.messages_buffer

  Settled-broadcaster :
      (n : ℕ) (prior : List (Message Text)) (log : List (Bcast Text))
      → (self : BroadcastProcess Text) (ctx : Sent Text) (h : MessageHash) (i : ℕ)
      → Settled n prior log self ctx
      → Settled n prior log (with_broadcaster h i self) ctx
  unfolding is_casually_ordered
  Settled-broadcaster n prior log self ctx h i s = record {
    wf = record {
      size = s.wf.size;
      counts = s.wf.counts;
      causal = s.wf.causal;
      waiting =
          All-map _ _ (Waiting-broadcaster n log h i self.messages_broadcasters)
            self.messages_buffer s.wf.waiting;
      dict = s.wf.dict;
    };
    told = s.told;
    ready = s.ready;
  }

  -- What a call leaves: a settled state of the same processes, and what it has told.
  abbrev pub Settles :
      ℕ
      → List (Message Text)
      → BroadcastProcess Text
      → Result (BroadcastProcess Text × Sent Text)
      → Type 0
  Settles n prior self0 result =
      (self : BroadcastProcess Text) × (ctx : Sent Text) × (log : List (Bcast Text)) × (result
        ≡ ok (self, ctx))
      × Settled n prior log self ctx
      × (self.processes ≡ self0.processes)

  relay-Settles :
      (n : ℕ) (prior : List (Message Text)) (log : List (Bcast Text))
      → (self : BroadcastProcess Text) (msg : Message (Bcast Text)) (ctx : Sent Text)
      → Settled n prior log self ctx
      → ltb name_limit (count msg.type) ≡ false
      → Dict.has (message_hash msg) self.messages_broadcasters ≡ true
      → (self' : BroadcastProcess Text) × (ctx' : Sent Text) × (relay self msg ctx
          ≡ ok (self', ctx'))
        × Settled n prior log self' ctx'
        × (self'.processes ≡ self.processes)
        × (Dict.has (message_hash msg) self'.messages_broadcasters ≡ true)
  unfolding relay
  relay-Settles n prior log self msg ctx s short there =
      elim (Bool-cases
        (HashSet.contains self.id (broadcasters (message_hash msg) self.messages_broadcasters))) [
          | inl sent ↦ (self, ctx, rw (relay, sent) refl, s, refl, there)
          | inr new ↦
              let (ctx', run, same) = broadcast_sends self.processes msg ctx short in
              let s' = Settled-broadcaster n prior log self ctx (message_hash msg) self.id s in
              (
                with_broadcaster (message_hash msg) self.id self,
                ctx',
                rw (relay, new, run, ◌>>=◌) refl,
                record {
                  wf = s'.wf;
                  told = ap (λ l. texts (prior ++ l)) same ∙ s'.told;
                  ready = s'.ready;
                },
                refl,
                ground (
                  arith,
                  has-add_broadcaster (message_hash msg) (message_hash msg) self.id
                      self.messages_broadcasters,
                  there,
                ),
              )
        ]

  buffered :
      (n : ℕ) (prior : List (Message Text)) (msg : Message (Bcast Text))
      (self : BroadcastProcess Text)
      → is_casually_ordered self msg ≡ ok false
      → NotReady n prior self self.messages_buffer
      → NotReady n prior
          (record self {
            messages_buffer = Dict.insert (message_hash msg) msg self.messages_buffer;
          })
          (Dict.insert (message_hash msg) msg self.messages_buffer)
  unfolding is_casually_ordered
  buffered n prior msg self early ready =
      Dict.All-insert (λ e. is_casually_ordered self e.1 ≡ ok false) (message_hash msg) msg
        self.messages_buffer early ready

  deliver_or_buffer-Settles :
      (n : ℕ) (prior : List (Message Text)) (log : List (Bcast Text))
      → (self : BroadcastProcess Text) (msg : Message (Bcast Text)) (ctx : Sent Text)
      → Settled n prior log self ctx
      → IsBcast n msg
      → Dict.has (message_hash msg) self.messages_broadcasters ≡ true
      → Settles n prior self (deliver_or_buffer self msg ctx)
  unfolding deliver_or_buffer
  deliver_or_buffer-Settles n prior log self msg ctx s bcast there =
      let (b, test, follows) = ordered-Follows n log self msg s.wf bcast in
      elim (Bool-cases b) [
        | inl next ↦
            let (self1, deliver, w1, buffer1, processes1, id1, known1) =
              deliver_message-Wf n log self msg ctx s.wf bcast there (follows next) in
            let (self', ctx', log', run, d, ready) =
              update_deliver-Delivered n prior (msg.body ∷ log) self1
                (record ctx {
                  sent_local =
                      ctx.sent_local ++ record { type = "DELIVER"; body = msg.body.text } ∷ [];
                })
                w1 (Told-deliver n prior ctx log msg.body s.told) in
            (
              self',
              ctx',
              log',
              rw (test, ◌>>=◌, next, deliver) run,
              record { wf = d.wf; told = d.told; ready = ready },
              d.processes ∙ processes1,
            )
        | inr early ↦ (
          record self { messages_buffer = Dict.insert (message_hash msg) msg self.messages_buffer },
          ctx,
          log,
          rw (test, ◌>>=◌, early) refl,
          record {
            wf = record {
              size = s.wf.size;
              counts = s.wf.counts;
              causal = s.wf.causal;
              waiting =
                  Dict.All-insert (Waiting n log self.messages_broadcasters) (message_hash msg) msg
                    self.messages_buffer (refl, bcast, inr there) s.wf.waiting;
              dict = Dict.insert-IsDict (message_hash msg) msg self.messages_buffer s.wf.dict;
            };
            told = s.told;
            ready = buffered n prior msg self (test ∙ ap ok early) s.ready;
          },
          refl,
        )
      ]

  -- A message of one of the processes raises nothing.
  pub on_message-Settles :
      (n : ℕ) (prior : List (Message Text)) (log : List (Bcast Text))
      → (self : BroadcastProcess Text) (msg : Message (Bcast Text)) (from : String)
        (ctx : Sent Text)
      → Settled n prior log self ctx
      → IsBcast n msg
      → (i : ℕ) → Dict.lookup from self.processes ≡ some i
      → Settles n prior self (on_message self msg from ctx)
  unfolding on_message process_id
  on_message-Settles n prior log self msg from ctx s bcast i known =
      elim (Bool-cases (text_eq.same msg.type "BCAST")) [
        | inr other ↦ (self, ctx, log, rw (on_message, other) refl, s, refl)
        | inl same ↦
            let short : ltb name_limit (count msg.type) ≡ false =
              ap (λ t. ltb name_limit (count t)) ((text_eq.same_iff msg.type "BCAST").0 same) in
            let s1 = Settled-broadcaster n prior log self ctx (message_hash msg) i s in
            let self1 = with_broadcaster (message_hash msg) i self in
            let here : Dict.has (message_hash msg) self1.messages_broadcasters ≡ true = ground (
              arith,
              has-add_broadcaster (message_hash msg) (message_hash msg) i
                  self.messages_broadcasters,
              hash_same_iff (message_hash msg) (message_hash msg),
            ) in
            let (self2, ctx2, run, s2, processes, there) =
              relay-Settles n prior log self1 msg ctx s1 short here in
            elim (Bool-cases (is_deliverable self2 msg)) [
              | inr not_now ↦ (
                self2,
                ctx2,
                log,
                rw (on_message, same, known, ◌>>=◌, run, not_now) refl,
                s2,
                processes,
              )
              | inl now ↦
                  let (self3, ctx3, log3, run3, s3, processes3) =
                    deliver_or_buffer-Settles n prior log self2 msg ctx2 s2 bcast there in
                  (
                    self3,
                    ctx3,
                    log3,
                    rw (on_message, same, known, ◌>>=◌, run, now) run3,
                    s3,
                    processes3 ∙ processes,
                  )
            ]
      ]

  pub on_local_message-Settles :
      (n : ℕ) (prior : List (Message Text)) (log : List (Bcast Text))
      → (self : BroadcastProcess Text) (msg : Message Text) (ctx : Sent Text)
      → Settled n prior log self ctx
      → Settles n prior self (on_local_message self msg ctx)
  unfolding on_local_message is_casually_ordered
  on_local_message-Settles n prior log self msg ctx s =
      elim (Bool-cases (text_eq.same msg.type "SEND")) [
        | inr other ↦ (self, ctx, log, rw (on_local_message, other) refl, s, refl)
        | inl same ↦
            let (ctx', run, kept) =
              broadcast_sends self.processes
                (record {
                  type = "BCAST";
                  body = record {
                    text = msg.body;
                    sender = self.id;
                    counter = self.counter;
                    state = self.state;
                  };
                })
                ctx refl in
            (
              record self { counter = self.counter + 1 },
              ctx',
              log,
              rw (on_local_message, same, run, ◌>>=◌) refl,
              record {
                wf = record {
                  size = s.wf.size;
                  counts = s.wf.counts;
                  causal = s.wf.causal;
                  waiting = s.wf.waiting;
                  dict = s.wf.dict;
                };
                told = ap (λ l. texts (prior ++ l)) kept ∙ s.told;
                ready = s.ready;
              },
              refl,
            )
      ]
