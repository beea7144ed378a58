-- ===== src/Guarantees/Link.antt =====
-- A sender and a receiver joined by an unreliable network. A message that was sent may arrive at
-- any later time, in any order, any number of times or never; an active timer may fire at any time.
-- The receivers of this homework set no timer. `inputs` records what the user has submitted.
pub mod Schedule
use distsys_course_work.Prelude.{
  ℕ, ◌≡◌, String, Bool, true, List, [], ◌∷◌, ◌++◌, map, Member, nat_eq,
}
use distsys_course_work.Prelude.HashSet
use distsys_course_work.Runtime.{
  Message, Context, fresh, Process, ok, TimerAction, set, set_once, cancel,
}
use distsys_course_work.Guarantees.{Data}

pub record System (Text S R A : Type 0) : Type 0 where
  pub sender : S
  pub receiver : R
  pub inputs : List Text
  pub wire : List (Message (Data Text))
  pub acks : List (Message A)
  pub delivered : List (Message Text)
  pub timers : List ℕ

-- The active timers after a callback.
unfoldable pub apply_timers : List (TimerAction ℕ) → List ℕ → List ℕ
apply_timers [] ts = ts
apply_timers (set t _ ∷ rest) ts = apply_timers rest (HashSet.add t ts)
apply_timers (set_once t _ ∷ rest) ts = apply_timers rest (HashSet.add t ts)
apply_timers (cancel t ∷ rest) ts = apply_timers rest (HashSet.discard t ts)

module _ {Text S R A : Type 0} where
  abbrev pub after_sender : System Text S R A → S × Context (Data Text) Text ℕ → System Text S R A
  after_sender s (p, ctx) = record s {
    sender = p;
    wire = s.wire ++ map (λ m. m.0) ctx.sent;
    timers = apply_timers ctx.timer_actions s.timers;
  }

  abbrev pub after_receiver : System Text S R A → R × Context A Text ℕ → System Text S R A
  after_receiver s (q, ctx) = record s {
    receiver = q;
    acks = s.acks ++ map (λ m. m.0) ctx.sent;
    delivered = s.delivered ++ ctx.sent_local;
  }

-- One callback of one of the two processes.
pub data Step {Text S R A : Type 0} (p : Process S Text A (Data Text) Text ℕ)
    (q : Process R Text (Data Text) A Text ℕ) (s : System Text S R A)
    : System Text S R A → Type 0 where
  submit :
      (now : ℕ) (m : Message Text) (r : S × Context (Data Text) Text ℕ)
      → p.on_local_message s.sender m (fresh now) ≡ ok r
      → Step p q s (after_sender (record s { inputs = s.inputs ++ m.body ∷ [] }) r)
  arrive :
      (now : ℕ) (from : String) (m : Message (Data Text)) (r : R × Context A Text ℕ)
      → Member m s.wire
      → q.on_message s.receiver m from (fresh now) ≡ ok r
      → Step p q s (after_receiver s r)
  acked :
      (now : ℕ) (from : String) (m : Message A) (r : S × Context (Data Text) Text ℕ)
      → Member m s.acks
      → p.on_message s.sender m from (fresh now) ≡ ok r
      → Step p q s (after_sender s r)
  fire :
      (now t : ℕ) (r : S × Context (Data Text) Text ℕ)
      → HashSet.contains t s.timers ≡ true
      → p.on_timer s.sender t (fresh now) ≡ ok r
      → Step p q s (after_sender (record s { timers = HashSet.discard t s.timers }) r)

-- The states that a run from `s` comes to.
pub data Reach {Text S R A : Type 0} (p : Process S Text A (Data Text) Text ℕ)
    (q : Process R Text (Data Text) A Text ℕ) (s : System Text S R A)
    : System Text S R A → Type 0 where
  here : Reach p q s s
  next : {t u : System Text S R A} → Reach p q s t → Step p q t u → Reach p q s u

-- The two processes as they start, and an empty network.
abbrev pub start : {Text S R A : Type 0} → S → R → System Text S R A
start p q = record {
  sender = p;
  receiver = q;
  inputs = [];
  wire = [];
  acks = [];
  delivered = [];
  timers = [];
}

module _ {Text S R A : Type 0} (p : Process S Text A (Data Text) Text ℕ)
    (q : Process R Text (Data Text) A Text ℕ) (P : System Text S R A → Type 0)
    (keep : (s t : System Text S R A) → Step p q s t → P s → P t) where
  pub Reach-induction : {s t : System Text S R A} → P s → Reach p q s t → P t
  Reach-induction h here = h
  Reach-induction h (next {t} {u} r st) = keep t u st (Reach-induction h r)

module _ {Text S R A : Type 0} (p : Process S Text A (Data Text) Text ℕ)
    (q : Process R Text (Data Text) A Text ℕ) where
  pub Reach-trans : {s t u : System Text S R A} → Reach p q s t → Reach p q t u → Reach p q s u
  Reach-trans r here = r
  Reach-trans r (next l st) = next (Reach-trans r l) st
