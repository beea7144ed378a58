-- ===== src/Tests/OrderedRuns.antt =====
-- Runs of the ordered exactly-once pair, and its theorems at these runs.
use distsys_course_work.Prelude.{
  ℕ, ◌≡◌, refl, some, [], ◌∷◌, take, arith, get_elem?, length, ◌≤◌, ◌<◌, ◌+◌,
}
use distsys_course_work.Prelude.Dict
use distsys_course_work.Runtime.{Context, fresh, ok}
use distsys_course_work.Guarantees.{Ack}
use distsys_course_work.Guarantees.Link.{System, Reach, start}
use distsys_course_work.Guarantees.Link.Schedule.{run, run-Reach}
use distsys_course_work.Guarantees.Log.{texts}
use distsys_course_work.Guarantees.Window
use distsys_course_work.Guarantees.Window.{Sender}
use distsys_course_work.Guarantees.Ordered
use distsys_course_work.Guarantees.Ordered.Delivery as OrderedDelivery
use distsys_course_work.Tests.Programs.{
  message, data_message, ack_message, reordering, waiting, retry, programs,
}

abbrev ordered_start : System ℕ (Sender ℕ) (Ordered.Receiver ℕ) Ack
ordered_start = start (Window.init "s" "r") (Ordered.init "r")

abbrev reordered : System ℕ (Sender ℕ) (Ordered.Receiver ℕ) Ack
reordered = record {
  sender = record {
    id = "s";
    receiver = "r";
    order = 2;
    order_lower_bound = 0;
    message_store = (0, 5) ∷ [];
  };
  receiver = record { id = "r"; order_lower_bound = 2; message_store = [] };
  inputs = 5 ∷ 6 ∷ [];
  wire = data_message 0 5 ∷ data_message 1 6 ∷ [];
  acks = ack_message 1 0 ∷ ack_message 0 2 ∷ ack_message 1 2 ∷ [];
  delivered = message 5 ∷ message 6 ∷ [];
  timers = 0 ∷ 1 ∷ [];
}

reordered_runs : run Ordered.sender Ordered.receiver reordering ordered_start ≡ some reordered
unfolding programs
reordered_runs = refl

reordered-Run : OrderedDelivery.Run "s" "r" reordered
reordered-Run =
    run-Reach Ordered.sender Ordered.receiver reordering ordered_start reordered reordered_runs

abbrev waiting_state : System ℕ (Sender ℕ) (Ordered.Receiver ℕ) Ack
waiting_state = record reordered {
  sender = record {
    id = "s";
    receiver = "r";
    order = 2;
    order_lower_bound = 0;
    message_store = (0, 5) ∷ (1, 6) ∷ [];
  };
  receiver = record { id = "r"; order_lower_bound = 0; message_store = (1, 6) ∷ [] };
  acks = ack_message 1 0 ∷ [];
  delivered = [];
}

waiting_runs : run Ordered.sender Ordered.receiver waiting ordered_start ≡ some waiting_state
unfolding programs
waiting_runs = refl

waiting-Run : OrderedDelivery.Run "s" "r" waiting_state
waiting-Run =
    run-Reach Ordered.sender Ordered.receiver waiting ordered_start waiting_state waiting_runs

abbrev retried : System ℕ (Sender ℕ) (Ordered.Receiver ℕ) Ack
retried = record {
  sender = record {
    id = "s";
    receiver = "r";
    order = 1;
    order_lower_bound = 1;
    message_store = [];
  };
  receiver = record { id = "r"; order_lower_bound = 1; message_store = [] };
  inputs = 5 ∷ [];
  wire = data_message 0 5 ∷ data_message 0 5 ∷ [];
  acks = ack_message 0 1 ∷ [];
  delivered = message 5 ∷ [];
  timers = 0 ∷ [];
}

retry_runs : run Ordered.sender Ordered.receiver retry ordered_start ≡ some retried
unfolding programs
retry_runs = refl

retried-Run : OrderedDelivery.Run "s" "r" retried
retried-Run = run-Reach Ordered.sender Ordered.receiver retry ordered_start retried retry_runs

ordered_delivered_in_order_example :
    (texts reordered.delivered ≡ take 2 (5 ∷ 6 ∷ [])) × (2 ≤ length reordered.inputs)
ordered_delivered_in_order_example =
    OrderedDelivery.delivered_in_order "s" "r" reordered reordered-Run

ordered_stored_in_window_example :
    (get_elem? waiting_state.inputs 1 ≡ some 6)
    × (waiting_state.receiver.order_lower_bound < 1)
    × (1 ≤ waiting_state.receiver.order_lower_bound + 30)
unfolding Dict.lookup
ordered_stored_in_window_example =
    OrderedDelivery.ordered_store_in_window "s" "r" waiting_state waiting-Run 1 6 refl

ordered_delivered_all_example : texts retried.delivered ≡ retried.inputs
ordered_delivered_all_example =
    OrderedDelivery.all_delivered_when_acknowledged "s" "r" retried retried-Run refl

ordered_delivery_possible_example :
    (t : System ℕ (Sender ℕ) (Ordered.Receiver ℕ) Ack) × Reach Ordered.sender Ordered.receiver
      waiting_state t
    × (t.inputs ≡ waiting_state.inputs)
    × (texts t.delivered ≡ waiting_state.inputs)
ordered_delivery_possible_example =
    OrderedDelivery.all_delivered_reachable "s" "r" waiting_state waiting-Run (omega arith)

ordered_arrival_answered_example :
    (r : Ordered.Receiver ℕ × Context Ack ℕ ℕ) × (Ordered.on_message waiting_state.receiver
        (data_message 0 5)
        "s"
        (fresh 7)
      ≡ ok r)
    × (waiting_state.receiver.order_lower_bound ≤ r.0.order_lower_bound)
    × (r.1.sent ≡ (ack_message 0 r.0.order_lower_bound, "s") ∷ [])
ordered_arrival_answered_example =
    OrderedDelivery.ordered_arrival_answered "s" "r" waiting_state waiting-Run (data_message 0 5) 7
      "s" (0, refl)
