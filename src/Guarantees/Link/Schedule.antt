-- ===== src/Guarantees/Link/Schedule.antt =====
-- Runs that are given event by event, to execute the processes and to reach concrete states.
use distsys_course_work.Prelude.{
  ℕ, ◌≡◌, true, false, List, [], ◌∷◌, ◌++◌, Option, none, some, get_elem?, nat_eq, Bool-cases,
  Option-cases, inl, inr, some-injective, subst, arith,
}
use distsys_course_work.Prelude.HashSet
use distsys_course_work.Runtime.{Message, fresh, Process, Result, ok, raise, Result-cases}
use distsys_course_work.Guarantees.{Data}
use distsys_course_work.Guarantees.Link.{
  System, Step, submit, arrive, acked, fire, Reach, here, next, Reach-trans, after_sender,
  after_receiver,
}

-- An arrival names the message by its place among all that were sent.
pub data Event (Text : Type 0) : Type 0 where
  submits : Message Text → Event Text
  arrives : ℕ → Event Text
  acknowledges : ℕ → Event Text
  fires : ℕ → Event Text

or_none : {A B : Type 0} → Result A → (A → B) → Option B
or_none (ok a) f = some (f a)
or_none (raise e) f = none

module _ {Text S R A : Type 0} (p : Process S Text A (Data Text) Text ℕ)
    (q : Process R Text (Data Text) A Text ℕ) where
  unfoldable pub perform : Event Text → System Text S R A → Option (System Text S R A)
  unfolding or_none
  perform (submits m) s =
      or_none (p.on_local_message s.sender m (fresh 0))
        (after_sender (record s { inputs = s.inputs ++ m.body ∷ [] }))
  perform (arrives i) s = elim (get_elem? s.wire i) [
    | none ↦ none
    | some m ↦ or_none (q.on_message s.receiver m "sender" (fresh 0)) (after_receiver s)
  ]
  perform (acknowledges i) s = elim (get_elem? s.acks i) [
    | none ↦ none
    | some m ↦ or_none (p.on_message s.sender m "receiver" (fresh 0)) (after_sender s)
  ]
  perform (fires t) s = elim (HashSet.contains t s.timers) [
    | false ↦ none
    | true ↦
        or_none (p.on_timer s.sender t (fresh 0))
          (after_sender (record s { timers = HashSet.discard t s.timers }))
  ]

  unfoldable pub run : List (Event Text) → System Text S R A → Option (System Text S R A)
  unfolding perform
  run [] s = some s
  run (e ∷ es) s = elim (perform e s) [ none ↦ none | some t ↦ run es t ]

  perform-Step : (e : Event Text) (s t : System Text S R A) → perform e s ≡ some t → Step p q s t
  unfolding perform
  perform-Step (submits m) s t h = elim (Result-cases (p.on_local_message s.sender m (fresh 0))) [
    | inl (r, e) ↦ subst (Step p q s) (some-injective _ _ (rw e at h)) (submit 0 m r e)
    | inr (x, e) ↦ absurd (ground arith)
  ]
  perform-Step (arrives i) s t h = elim (Option-cases (get_elem? s.wire i)) [
    | inl e ↦ absurd (ground arith)
    | inr (m, at) ↦ elim (Result-cases (q.on_message s.receiver m "sender" (fresh 0))) [
      | inl (r, e) ↦ subst (Step p q s) (ground arith) (arrive 0 "sender" m r (i, at) e)
      | inr (x, e) ↦ absurd (ground arith)
    ]
  ]
  perform-Step (acknowledges i) s t h = elim (Option-cases (get_elem? s.acks i)) [
    | inl e ↦ absurd (ground arith)
    | inr (m, at) ↦ elim (Result-cases (p.on_message s.sender m "receiver" (fresh 0))) [
      | inl (r, e) ↦ subst (Step p q s) (ground arith) (acked 0 "receiver" m r (i, at) e)
      | inr (x, e) ↦ absurd (ground arith)
    ]
  ]
  perform-Step (fires k) s t h = elim (Bool-cases (HashSet.contains k s.timers)) [
    | inr e ↦ absurd (ground arith)
    | inl armed ↦ elim (Result-cases (p.on_timer s.sender k (fresh 0))) [
      | inl (r, e) ↦ subst (Step p q s) (ground arith) (fire 0 k r armed e)
      | inr (x, e) ↦ absurd (ground arith)
    ]
  ]

  -- What such a run comes to is reached.
  pub run-Reach :
      (es : List (Event Text)) (s t : System Text S R A) → run es s ≡ some t → Reach p q s t
  unfolding run
  run-Reach [] s t h = subst (Reach p q s) (some-injective _ _ h) here
  run-Reach (e ∷ es) s t h = elim (Option-cases (perform e s)) [
    | inl stuck ↦ absurd (ground arith)
    | inr (u, did) ↦
        Reach-trans p q (next here (perform-Step e s u did)) (run-Reach es u t (ground arith))
  ]
