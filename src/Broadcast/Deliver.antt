-- ===== src/Broadcast/Deliver.antt =====
-- The invariant of BroadcastProcess, and one delivery.
use distsys_course_work.Prelude.{
  ℕ, ◌<◌, ◌≤◌, ◌≡◌, refl, ◌⊎◌, inl, inr, Bool, true, false, List, [], ◌∷◌, ◌++◌, nat_eq, nat_same,
  nat_same_iff, length, arith, Bool-cases, All, All-map, ap, ◌∙◌, subst,
}
use distsys_course_work.Prelude.Dict
use distsys_course_work.Prelude.HashSet
use distsys_course_work.Runtime.{Message, ok, ◌>>=◌, send_local}
use distsys_course_work.Runtime.Items.{item}
use distsys_course_work.Broadcast.{message_hash, is_casually_ordered, deliver_message}
use distsys_course_work.Broadcast.State.{
  MessageHash, hash_same, hash_eq, hash_same_iff, Bcast, BroadcastProcess, Sent,
}
use distsys_course_work.Broadcast.Causality.{
  count_from, Below, Follows, Causal, Counts, item-Counts, set_item-Counts, all_le-Below,
}

module _ {Text : Type 0} where
  -- The sender is one of the `n` processes, and the vector has a number for each.
  abbrev pub IsBcast : ℕ → Message (Bcast Text) → Type 0
  IsBcast n msg = (msg.body.sender < n) × (n ≤ length msg.body.state)

  -- A stored message is under its own hash, and has been passed by, or its broadcasters are known.
  abbrev pub Waiting :
      ℕ
      → List (Bcast Text)
      → List (MessageHash × List ℕ)
      → MessageHash × Message (Bcast Text)
      → Type 0
  Waiting n log known (h, msg) =
      (h ≡ message_hash msg)
      × IsBcast n msg
      × ((msg.body.counter < count_from msg.body.sender log) ⊎ (Dict.has h known ≡ true))

  -- What holds between two callbacks of one of `n` processes.
  pub record Wf (n : ℕ) (log : List (Bcast Text)) (self : BroadcastProcess Text) : Type 0 where
    pub size : length self.state ≡ n
    pub counts : Counts 0 self.state log
    pub causal : Causal n log
    pub waiting : All (Waiting n log self.messages_broadcasters) self.messages_buffer
    pub dict : Dict.IsDict self.messages_buffer

  pub ordered-Follows :
      (n : ℕ) (log : List (Bcast Text)) (self : BroadcastProcess Text) (msg : Message (Bcast Text))
      → Wf n log self
      → IsBcast n msg
      → (b : Bool) × (is_casually_ordered self msg ≡ ok b) × (b ≡ true → Follows n msg.body log)
  unfolding is_casually_ordered
  ordered-Follows n log self msg w m =
      let (b, run, below) =
        all_le-Below log 0 msg.body.state self.state w.counts (omega (arith, w.size, m.1)) in
      let at : item self.state msg.body.sender ≡ ok (count_from msg.body.sender log) =
        item-Counts log msg.body.sender 0 msg.body.sender self.state w.counts (omega arith)
          (omega (arith, w.size, m.0)) in
      elim (Bool-cases (nat_same msg.body.counter (count_from msg.body.sender log))) [
        | inl next ↦ (
          b,
          rw (at, ◌>>=◌, next) run,
          λ e. (
            (nat_same_iff _ _).0 next,
            subst (λ k. Below k 0 msg.body.state log) w.size (below e),
          ),
        )
        | inr other ↦ (false, rw (at, ◌>>=◌, other) refl, λ e. cc)
      ]

  -- A delivery leaves the other stored messages as they were, and passes by those with its hash.
  pub Waiting-deliver :
      (n : ℕ) (log : List (Bcast Text)) (known : List (MessageHash × List ℕ))
      → (msg : Message (Bcast Text)) → msg.body.counter ≡ count_from msg.body.sender log
      → (entry : MessageHash × Message (Bcast Text)) → Waiting n log known entry
      → Waiting n (msg.body ∷ log) (Dict.remove (message_hash msg) known) entry
  unfolding count_from
  Waiting-deliver n log known msg next (h, other) (own, bcast, state) =
      let here = Dict.has-remove (message_hash msg) h known in
      elim (Bool-cases (hash_same (message_hash msg) h)) [
        | inl same ↦
            let both = (hash_same_iff (message_hash msg) h).0 same ∙ own in
            let sender : msg.body.sender ≡ other.body.sender = ap (λ p. p.0) both in
            let counter : msg.body.counter ≡ other.body.counter = ap (λ p. p.1) both in
            (own, bcast, inl (ground (arith, sender, counter, next)))
        | inr distinct ↦ (
          own,
          bcast,
          elim state [
            | inl passed ↦ inl (ground (arith, passed))
            | inr there ↦ inr (here ∙ rw distinct there)
          ],
        )
      ]

  -- A message that is next of its sender has not been passed by.
  pub deliver_message-Wf :
      (n : ℕ) (log : List (Bcast Text)) (self : BroadcastProcess Text) (msg : Message (Bcast Text))
      → (ctx : Sent Text) → Wf n log self
      → IsBcast n msg
      → Dict.has (message_hash msg) self.messages_broadcasters ≡ true
      → Follows n msg.body log
      → (self' : BroadcastProcess Text) × (deliver_message self msg ctx
          ≡ ok (
            self',
            record ctx {
              sent_local = ctx.sent_local ++ record { type = "DELIVER"; body = msg.body.text } ∷ [];
            },
          ))
        × Wf n (msg.body ∷ log) self'
        × (self'.messages_buffer ≡ self.messages_buffer)
        × (self'.processes ≡ self.processes)
        × (self'.id ≡ self.id)
        × (self'.messages_broadcasters ≡ Dict.remove (message_hash msg) self.messages_broadcasters)
  unfolding deliver_message send_local
  deliver_message-Wf n log self msg ctx w m there f =
      let (state, set, len, counts) =
        set_item-Counts msg.body log msg.body.sender 0 self.state w.counts (omega arith)
          (omega (arith, w.size, m.0)) f.0 in
      (
        record self {
          state = state;
          messages_deliver = HashSet.add (message_hash msg) self.messages_deliver;
          messages_broadcasters = Dict.remove (message_hash msg) self.messages_broadcasters;
        },
        rw (set, ◌>>=◌, there) refl,
        record {
          size = len ∙ w.size;
          counts = counts;
          causal = (f, w.causal);
          waiting =
              All-map _ _ (Waiting-deliver n log self.messages_broadcasters msg f.0)
                self.messages_buffer w.waiting;
          dict = w.dict;
        },
        refl,
        refl,
        refl,
        refl,
      )
