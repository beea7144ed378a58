-- ===== src/Guarantees/Window/Receivers.antt =====
-- What a receiver promises to the windowed sender, whatever it does with the messages.
use Prim.Native.String.{count}
use distsys_course_work.Prelude.{
  ℕ, ◌+◌, ◌≤◌, ◌≡◌, String, Bool, true, false, some, List, [], ◌∷◌, ◌++◌, get_elem?,
}
use distsys_course_work.Runtime.{Message, Context, fresh, ok, Process, name_limit}
use distsys_course_work.Guarantees.{Data, Ack}

-- The outcome of one message: what the user has grows, the bound does not fall, no order is
-- forgotten, the message's order is known, the bound stands at an order that is not known, and one
-- acknowledgement goes back.
pub record Answer {Text R : Type 0} (lower : R → ℕ) (seen : R → ℕ → Bool)
    (Holds : List (Message Text) → R → Type 0) (delivered : List (Message Text)) (r : R) (order : ℕ)
    (from : String) (s : R × Context Ack Text ℕ) : Type 0 where
  pub holds : Holds (delivered ++ s.1.sent_local) s.0
  pub grows : lower r ≤ lower s.0
  pub keeps : (k : ℕ) → seen r k ≡ true → seen s.0 k ≡ true
  pub had : seen s.0 order ≡ true
  pub stops : seen s.0 (lower s.0) ≡ false
  pub answered :
      s.1.sent
      ≡ (
        record { type = "MESSAGE"; body = record { order = order; lower_bound = lower s.0 } },
        from,
      )
        ∷ []

-- `Holds inputs delivered r`: what the user of the receiver `r` has got, of what was submitted.
pub record WindowReceiver (Text R : Type 0) (limit : ℕ) : Type 1 where
  pub process : Process R Text (Data Text) Ack Text ℕ
  pub lower : R → ℕ
  pub seen : R → ℕ → Bool
  pub Holds : List Text → List (Message Text) → R → Type 0
  pub holds_submit :
      (inputs : List Text) (body : Text) (ds : List (Message Text)) (r : R)
      → Holds inputs ds r
      → Holds (inputs ++ body ∷ []) ds r
  pub holds_stops :
      (inputs : List Text) (ds : List (Message Text)) (r : R)
      → Holds inputs ds r
      → seen r (lower r) ≡ false
  pub answers :
      (inputs : List Text) (ds : List (Message Text)) (r : R) (now : ℕ) (from : String)
      (m : Message (Data Text))
      → Holds inputs ds r
      → get_elem? inputs m.body.order ≡ some m.body.text
      → m.body.order ≤ lower r + limit
      → count m.type ≤ name_limit
      → (s : R × Context Ack Text ℕ) × (process.on_message r m from (fresh now) ≡ ok s)
        × Answer lower seen (Holds inputs) ds r m.body.order from s
