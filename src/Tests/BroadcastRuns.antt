-- ===== src/Tests/BroadcastRuns.antt =====
-- A run of BroadcastProcess: the second message of "b" comes before its first.
use distsys_course_work.Prelude.{
  ℕ, ◌≡◌, refl, String, false, List, [], ◌∷◌, All, arith, nat_eq, text_eq,
}
use distsys_course_work.Prelude.Dict
use distsys_course_work.Prelude.HashSet
use distsys_course_work.Runtime.{Message, ok, fresh, send, send_local}
use distsys_course_work.Runtime.Loop.{while}
use distsys_course_work.Broadcast
use distsys_course_work.Broadcast.State.{
  Bcast, BroadcastProcess, Sent, number, process_id, all_le, pop_all, broadcasters, add_broadcaster,
  hash_eq,
}
use distsys_course_work.Broadcast.Causality.{Causal, texts_of}
use distsys_course_work.Broadcast.History
use distsys_course_work.Broadcast.History.{History}

abbrev names : List String
names = "a" ∷ "b" ∷ []

abbrev from_b : ℕ → ℕ → Message (Bcast ℕ)
from_b text counter = record {
  type = "BCAST";
  body = record { text = text; sender = 1; counter = counter; state = 0 ∷ counter ∷ [] };
}

abbrev fresh_process : BroadcastProcess ℕ
fresh_process = record {
  processes = ("a", 0) ∷ ("b", 1) ∷ [];
  id = 0;
  counter = 0;
  state = 0 ∷ 0 ∷ [];
  messages_deliver = [];
  messages_buffer = [];
  messages_broadcasters = [];
}

abbrev early : BroadcastProcess ℕ
early = record fresh_process {
  messages_buffer = ((1, 1), from_b 6 1) ∷ [];
  messages_broadcasters = ((1, 1), 1 ∷ 0 ∷ []) ∷ [];
}

abbrev done : BroadcastProcess ℕ
done = record fresh_process { state = 0 ∷ 2 ∷ []; messages_deliver = (1, 0) ∷ (1, 1) ∷ [] }

abbrev relayed : ℕ → Message (Bcast ℕ) → Sent ℕ
relayed now msg = record {
  time = now;
  sent = (msg, "a") ∷ (msg, "b") ∷ [];
  sent_local = [];
  timer_actions = [];
}

abbrev told : List (Message ℕ)
told = record { type = "DELIVER"; body = 5 } ∷ record { type = "DELIVER"; body = 6 } ∷ []

programs_start : Broadcast.init "a" names ≡ ok fresh_process
unfolding Broadcast.init process_id number Dict.insert Dict.lookup
programs_start = refl

early_arrives :
    Broadcast.on_message fresh_process (from_b 6 1) "b" (fresh 3)
    ≡ ok (early, relayed 3 (from_b 6 1))
unfolding Broadcast.on_message Broadcast.relay Broadcast.best_effort_broadcast
    Broadcast.deliver_or_buffer Broadcast.is_deliverable Broadcast.is_casually_ordered process_id
    add_broadcaster broadcasters all_le send Dict.insert Dict.lookup HashSet.add HashSet.contains
early_arrives = refl

first_arrives :
    Broadcast.on_message early (from_b 5 0) "b" (fresh 4)
    ≡ ok (done, record (relayed 4 (from_b 5 0)) { sent_local = told })
unfolding Broadcast.on_message Broadcast.relay Broadcast.best_effort_broadcast
    Broadcast.deliver_or_buffer Broadcast.is_deliverable Broadcast.is_casually_ordered process_id
    add_broadcaster broadcasters all_le send Dict.insert Dict.lookup HashSet.add HashSet.contains
    Broadcast.deliver_message send_local Dict.has Dict.remove Broadcast.update_deliver while
    Broadcast.update_step Broadcast.deliver_round pop_all
first_arrives = refl

early-History : History "a" names early []
unfolding Dict.lookup
early-History =
    History.message fresh_process early [] 3 (from_b 6 1) "b" (relayed 3 (from_b 6 1))
      (omega arith, omega arith) 1 refl (History.start fresh_process programs_start) early_arrives

done-History : History "a" names done told
unfolding Dict.lookup
done-History =
    History.message early done [] 4 (from_b 5 0) "b"
      (record (relayed 4 (from_b 5 0)) { sent_local = told }) (omega arith, omega arith) 1 refl
      early-History first_arrives

causes_come_first_example : (log : List (Bcast ℕ)) × (5 ∷ 6 ∷ [] ≡ texts_of log) × Causal 2 log
causes_come_first_example = History.causes_come_first "a" names done told done-History

stored_messages_wait_example :
    All (λ e. Broadcast.is_casually_ordered early e.1 ≡ ok false) early.messages_buffer
stored_messages_wait_example = History.stored_messages_wait "a" names early [] early-History

on_message_returns_example :
    (self : BroadcastProcess ℕ) × (ctx : Sent ℕ) × (Broadcast.on_message early
        (from_b 5 0)
        "b"
        (fresh 4)
      ≡ ok (self, ctx))
    × (self.processes ≡ early.processes)
unfolding Dict.lookup
on_message_returns_example =
    History.on_message_returns "a" names early [] early-History (from_b 5 0) "b" 4 1
      (omega arith, omega arith) refl
