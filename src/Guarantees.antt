-- ===== src/Guarantees.antt =====
-- homework/01-guarantees/solution.py: the messages of the four sender and receiver pairs.
pub mod Link
pub mod Log
pub mod AtMostOnce
pub mod AtLeastOnce
pub mod ExactlyOnce
pub mod Window
pub mod Ordered
use distsys_course_work.Prelude.{ℕ, String}

-- A message for the receiver: the user's text with the sender's counter.
pub record Data (Text : Type 0) : Type 0 where
  pub order : ℕ
  pub text : Text

-- The answer of the receivers that deliver exactly once.
pub record Ack : Type 0 where
  pub order : ℕ
  pub lower_bound : ℕ
