-- ===== src/Tests/ExactlyOnceRuns.antt =====
-- Runs of the exactly-once pair, and its theorems at these runs.
use mathlib.Core.List.{Perm}
use distsys_course_work.Prelude.{ℕ, nat_eq, ◌≡◌, refl, some, [], ◌∷◌, List, arith, ◌≤◌, ◌<◌, ◌+◌}
use distsys_course_work.Prelude.HashSet
use distsys_course_work.Runtime.{Context, fresh, ok}
use distsys_course_work.Guarantees.{Ack}
use distsys_course_work.Guarantees.Link.{System, Reach, start}
use distsys_course_work.Guarantees.Link.Schedule.{run, run-Reach}
use distsys_course_work.Guarantees.Log.{texts, IsDistinct, Told}
use distsys_course_work.Guarantees.Window
use distsys_course_work.Guarantees.Window.{Sender}
use distsys_course_work.Guarantees.ExactlyOnce
use distsys_course_work.Guarantees.ExactlyOnce.Arrival.{seen}
use distsys_course_work.Guarantees.ExactlyOnce.Delivery as ExactlyOnceDelivery
use distsys_course_work.Tests.Programs.{
  message, data_message, ack_message, reordering, waiting, retry, programs,
}

abbrev begin : System ℕ (Sender ℕ) ExactlyOnce.Receiver Ack
begin = start (Window.init "s" "r") (ExactlyOnce.init "r")

abbrev reordered : System ℕ (Sender ℕ) ExactlyOnce.Receiver Ack
reordered = record {
  sender = record {
    id = "s";
    receiver = "r";
    order = 2;
    order_lower_bound = 0;
    message_store = (0, 5) ∷ [];
  };
  receiver = record { id = "r"; order_lower_bound = 2; order_store = [] };
  inputs = 5 ∷ 6 ∷ [];
  wire = data_message 0 5 ∷ data_message 1 6 ∷ [];
  acks = ack_message 1 0 ∷ ack_message 0 2 ∷ ack_message 1 2 ∷ [];
  delivered = message 6 ∷ message 5 ∷ [];
  timers = 0 ∷ 1 ∷ [];
}

reordered_runs : run ExactlyOnce.sender ExactlyOnce.receiver reordering begin ≡ some reordered
unfolding programs
reordered_runs = refl

reordered-Run : ExactlyOnceDelivery.Run "s" "r" reordered
reordered-Run =
    run-Reach ExactlyOnce.sender ExactlyOnce.receiver reordering begin reordered reordered_runs

abbrev waiting_state : System ℕ (Sender ℕ) ExactlyOnce.Receiver Ack
waiting_state = record reordered {
  sender = record {
    id = "s";
    receiver = "r";
    order = 2;
    order_lower_bound = 0;
    message_store = (0, 5) ∷ (1, 6) ∷ [];
  };
  receiver = record { id = "r"; order_lower_bound = 0; order_store = 1 ∷ [] };
  acks = ack_message 1 0 ∷ [];
  delivered = message 6 ∷ [];
}

waiting_runs : run ExactlyOnce.sender ExactlyOnce.receiver waiting begin ≡ some waiting_state
unfolding programs
waiting_runs = refl

waiting-Run : ExactlyOnceDelivery.Run "s" "r" waiting_state
waiting-Run =
    run-Reach ExactlyOnce.sender ExactlyOnce.receiver waiting begin waiting_state waiting_runs

abbrev retried : System ℕ (Sender ℕ) ExactlyOnce.Receiver Ack
retried = record {
  sender = record {
    id = "s";
    receiver = "r";
    order = 1;
    order_lower_bound = 1;
    message_store = [];
  };
  receiver = record { id = "r"; order_lower_bound = 1; order_store = [] };
  inputs = 5 ∷ [];
  wire = data_message 0 5 ∷ data_message 0 5 ∷ [];
  acks = ack_message 0 1 ∷ [];
  delivered = message 5 ∷ [];
  timers = 0 ∷ [];
}

retry_runs : run ExactlyOnce.sender ExactlyOnce.receiver retry begin ≡ some retried
unfolding programs
retry_runs = refl

retried-Run : ExactlyOnceDelivery.Run "s" "r" retried
retried-Run = run-Reach ExactlyOnce.sender ExactlyOnce.receiver retry begin retried retry_runs

eo_delivered_at_most_once_example :
    (orders : List ℕ) × IsDistinct orders
    × Told reordered.inputs orders (texts reordered.delivered)
    × ((k : ℕ) → HashSet.contains k orders ≡ seen reordered.receiver k)
eo_delivered_at_most_once_example =
    ExactlyOnceDelivery.each_seen_once "s" "r" reordered reordered-Run

eo_stored_in_window_example :
    (waiting_state.receiver.order_lower_bound < 1)
    × (1 ≤ waiting_state.receiver.order_lower_bound + 21)
unfolding HashSet.contains
eo_stored_in_window_example =
    ExactlyOnceDelivery.stored_in_window "s" "r" waiting_state waiting-Run 1 refl

eo_delivered_all_example : Perm (texts retried.delivered) retried.inputs
eo_delivered_all_example =
    ExactlyOnceDelivery.permutation_when_acknowledged "s" "r" retried retried-Run refl

eo_delivery_possible_example :
    (t : System ℕ (Sender ℕ) ExactlyOnce.Receiver Ack) × Reach ExactlyOnce.sender
      ExactlyOnce.receiver waiting_state t
    × (t.inputs ≡ waiting_state.inputs)
    × Perm (texts t.delivered) waiting_state.inputs
eo_delivery_possible_example =
    ExactlyOnceDelivery.permutation_reachable "s" "r" waiting_state waiting-Run (omega arith)

eo_arrival_answered_example :
    (r : ExactlyOnce.Receiver × Context Ack ℕ ℕ) × (ExactlyOnce.on_message waiting_state.receiver
        (data_message 0 5)
        "s"
        (fresh 7)
      ≡ ok r)
    × (waiting_state.receiver.order_lower_bound ≤ r.0.order_lower_bound)
    × (r.1.sent ≡ (ack_message 0 r.0.order_lower_bound, "s") ∷ [])
eo_arrival_answered_example =
    ExactlyOnceDelivery.arrival_answered "s" "r" waiting_state waiting-Run (data_message 0 5) 7 "s"
      (0, refl)
