-- ===== src/Broadcast/History.antt =====
-- The histories of one BroadcastProcess: any local messages, and any messages of the processes, in
-- any order and any number of times.
use mathlib.Core.List.{append-nil}
use distsys_course_work.Prelude.{
  ℕ, suc, ◌≡◌, refl, inl, inr, String, false, some, List, [], ◌∷◌, ◌++◌, text_eq, nat_eq, length,
  arith, All, sym, ap, subst, ◌∙◌,
}
use distsys_course_work.Prelude.Dict
use distsys_course_work.Runtime.{
  Message, Result, Result-cases, raise, ok, ok-injective, ◌>>=◌, fresh,
}
use distsys_course_work.Guarantees.Log.{texts}
use distsys_course_work.Broadcast.{init, is_casually_ordered, on_message, on_local_message}
use distsys_course_work.Broadcast.State.{
  Bcast, BroadcastProcess, Sent, process_id, number, no_messages,
}
use distsys_course_work.Broadcast.Causality.{Causal, Counts, count_from, texts_of}
use distsys_course_work.Broadcast.Deliver.{IsBcast}
use distsys_course_work.Broadcast.Arrival.{
  Settled, Settles, on_message-Settles, on_local_message-Settles,
}

-- The states after callbacks that raise nothing, with all that the user has been told.
pub data History {Text : Type 0} (proc_id : String) (names : List String)
    : BroadcastProcess Text → List (Message Text) → Type 0 where
  start :
      (self : BroadcastProcess Text) → init proc_id names ≡ ok self → History proc_id names self []
  local_message :
      (self self' : BroadcastProcess Text) (told : List (Message Text)) (now : ℕ)
      → (msg : Message Text) (ctx : Sent Text) → History proc_id names self told
      → on_local_message self msg (fresh now) ≡ ok (self', ctx)
      → History proc_id names self' (told ++ ctx.sent_local)
  message :
      (self self' : BroadcastProcess Text) (told : List (Message Text)) (now : ℕ)
      → (msg : Message (Bcast Text)) (from : String) (ctx : Sent Text) → IsBcast (length names) msg
      → (i : ℕ) → Dict.lookup from self.processes ≡ some i
      → History proc_id names self told
      → on_message self msg from (fresh now) ≡ ok (self', ctx)
      → History proc_id names self' (told ++ ctx.sent_local)

Counts-start :
    (Text : Type 0) (i : ℕ) (names : List String) → Counts {Text = Text} i (no_messages names) []
unfolding count_from
Counts-start Text i [] = tt
Counts-start Text i (name ∷ names) = (refl, Counts-start Text (suc i) names)

length-no_messages : (names : List String) → length (no_messages names) ≡ length names
length-no_messages [] = refl
length-no_messages (name ∷ names) = omega (arith, length-no_messages names)

module _ {Text : Type 0} (proc_id : String) (names : List String) where
  abbrev Kept : BroadcastProcess Text → List (Message Text) → Type 0
  Kept self told =
      (log : List (Bcast Text)) × ((now : ℕ) → Settled (length names) told log self (fresh now))

  Settled-next :
      (told : List (Message Text)) (log : List (Bcast Text)) (self : BroadcastProcess Text)
      → (ctx : Sent Text) → Settled (length names) told log self ctx
      → (now : ℕ) → Settled (length names) (told ++ ctx.sent_local) log self (fresh now)
  Settled-next told log self ctx s now = record {
    wf = s.wf;
    told = rw append-nil s.told;
    ready = s.ready;
  }

  abbrev initial : ℕ → BroadcastProcess Text
  initial i = record {
    processes = number 0 names [];
    id = i;
    counter = 0;
    state = no_messages names;
    messages_deliver = [];
    messages_buffer = [];
    messages_broadcasters = [];
  }

  start-Kept : (self : BroadcastProcess Text) → init proc_id names ≡ ok self → Kept self []
  unfolding init
  start-Kept self e = elim (Result-cases (process_id proc_id (number 0 names []))) [
    | inr (why, fails) ↦
        let raises : init {Text = Text} proc_id names ≡ raise why = rw (init, fails, ◌>>=◌) refl in
        absurd (cc (sym raises ∙ e))
    | inl (i, found) ↦
        let starts : init proc_id names ≡ ok (initial i) = rw (init, found, ◌>>=◌) refl in
        let made = ok-injective (sym starts ∙ e) in
        subst (λ s. Kept s []) made
          (
            [],
            λ now. record {
              wf = record {
                size = length-no_messages names;
                counts = Counts-start Text 0 names;
                causal = tt;
                waiting = tt;
                dict = tt;
              };
              told = refl;
              ready = tt;
            },
          )
  ]

  Settles-Kept :
      (self self' : BroadcastProcess Text) (told : List (Message Text)) (ctx : Sent Text)
      → (result : Result (BroadcastProcess Text × Sent Text))
      → Settles (length names) told self result
      → result ≡ ok (self', ctx)
      → Kept self' (told ++ ctx.sent_local)
  Settles-Kept self self' told ctx result (self1, ctx1, log, run, s, _) e =
      let same = ok-injective (sym run ∙ e) in
      (
        log,
        Settled-next told log self' ctx
            (subst (λ p. Settled (length names) told log p.0 p.1) same s),
      )

  History-Kept :
      (self : BroadcastProcess Text) (told : List (Message Text))
      → History proc_id names self told
      → Kept self told
  History-Kept self told (start _ made) = start-Kept self made
  History-Kept self _ (local_message before _ told now msg ctx h run) =
      let (log, s) = History-Kept before told h in
      Settles-Kept before self told ctx _
        (on_local_message-Settles (length names) told log before msg (fresh now) (s now)) run
  History-Kept self _ (message before _ told now msg from ctx bcast i known h run) =
      let (log, s) = History-Kept before told h in
      Settles-Kept before self told ctx _
        (on_message-Settles (length names) told log before msg from (fresh now) (s now) bcast i
          known)
        run

  pub causes_come_first :
      (self : BroadcastProcess Text) (told : List (Message Text))
      → History proc_id names self told
      → (log : List (Bcast Text)) × (texts told ≡ texts_of log) × Causal (length names) log
  causes_come_first self told h =
      let (log, s) = History-Kept self told h in
      (log, ap texts (sym (append-nil told)) ∙ (s 0).told, (s 0).wf.causal)

  -- In every history, no stored message is in causal order: what can be delivered is not kept.
  pub stored_messages_wait :
      (self : BroadcastProcess Text) (told : List (Message Text))
      → History proc_id names self told
      → All (λ e. is_casually_ordered self e.1 ≡ ok false) self.messages_buffer
  stored_messages_wait self told h = let (log, s) = History-Kept self told h in (s 0).ready

  pub on_message_returns :
      (self : BroadcastProcess Text) (told : List (Message Text))
      → History proc_id names self told
      → (msg : Message (Bcast Text)) (from : String) (now i : ℕ) → IsBcast (length names) msg
      → Dict.lookup from self.processes ≡ some i
      → (self' : BroadcastProcess Text) × (ctx : Sent Text) × (on_message self msg from (fresh now)
          ≡ ok (self', ctx))
        × (self'.processes ≡ self.processes)
  on_message_returns self told h msg from now i bcast known =
      let (log, s) = History-Kept self told h in
      let (self', ctx, _, run, _, processes) =
        on_message-Settles (length names) told log self msg from (fresh now) (s now) bcast i
          known in
      (self', ctx, run, processes)
