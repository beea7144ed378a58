-- ===== src/Tests/LooserRuns.antt =====
-- Runs of the at-most-once and the at-least-once pair, and their theorems at these runs.
use distsys_course_work.Prelude.{
  ℕ, nat_eq, ◌≡◌, refl, false, some, none, [], ◌∷◌, List, get_elem?, Member, ◌<◌,
}
use distsys_course_work.Prelude.Dict
use distsys_course_work.Prelude.HashSet
use distsys_course_work.Guarantees.{Ack}
use distsys_course_work.Guarantees.Link.{System, start}
use distsys_course_work.Guarantees.Link.Schedule.{Event, submits, arrives, run, run-Reach}
use distsys_course_work.Guarantees.Log.{texts, IsDistinct, Told}
use distsys_course_work.Guarantees.AtMostOnce
use distsys_course_work.Guarantees.AtMostOnce.Arrival.{ThreeLater}
use distsys_course_work.Guarantees.AtMostOnce.Delivery as AtMostOnceDelivery
use distsys_course_work.Guarantees.AtLeastOnce
use distsys_course_work.Guarantees.AtLeastOnce.{OrderAck}
use distsys_course_work.Guarantees.AtLeastOnce.Delivery as AtLeastOnceDelivery
use distsys_course_work.Tests.Programs.{message, data_message, retry, programs}

-- Order 0 is held up until 1, 2, 3 and 4 have arrived: it is then too old.
abbrev late : List (Event ℕ)
late =
    submits (message 5)
    ∷ submits (message 6)
    ∷ submits (message 7)
    ∷ submits (message 8)
    ∷ submits (message 9)
    ∷ arrives 1
    ∷ arrives 2
    ∷ arrives 2
    ∷ arrives 3
    ∷ arrives 4
    ∷ arrives 0
    ∷ []

abbrev begin : System ℕ AtMostOnce.Sender AtMostOnce.Receiver Ack
begin = start (AtMostOnce.init_sender "s" "r") (AtMostOnce.init "r")

abbrev skipped : System ℕ AtMostOnce.Sender AtMostOnce.Receiver Ack
skipped = record {
  sender = record { id = "s"; receiver = "r"; order = 5 };
  receiver = record { id = "r"; order_lower_bound = 5; order_store = [] };
  inputs = 5 ∷ 6 ∷ 7 ∷ 8 ∷ 9 ∷ [];
  wire =
      data_message 0 5
      ∷ data_message 1 6
      ∷ data_message 2 7
      ∷ data_message 3 8
      ∷ data_message 4 9
      ∷ [];
  acks = [];
  delivered = message 6 ∷ message 7 ∷ message 8 ∷ message 9 ∷ [];
  timers = [];
}

late_runs : run AtMostOnce.sender AtMostOnce.receiver late begin ≡ some skipped
unfolding programs
late_runs = refl

skipped-Run : AtMostOnceDelivery.Run "s" "r" skipped
skipped-Run = run-Reach AtMostOnce.sender AtMostOnce.receiver late begin skipped late_runs

amo_delivered_at_most_once_example :
    (orders : List ℕ) × IsDistinct orders
    × Told skipped.inputs orders (texts skipped.delivered)
    × ((k : ℕ)
        → k < skipped.receiver.order_lower_bound
        → HashSet.contains k orders ≡ false
        → ThreeLater orders k)
amo_delivered_at_most_once_example =
    AtMostOnceDelivery.delivered_at_most_once "s" "r" skipped skipped-Run

abbrev retried : System ℕ (AtLeastOnce.Sender ℕ) AtLeastOnce.Receiver OrderAck
retried = record {
  sender = record { id = "s"; receiver = "r"; order = 1; message_store = [] };
  receiver = record { id = "r" };
  inputs = 5 ∷ [];
  wire = data_message 0 5 ∷ data_message 0 5 ∷ [];
  acks = record { type = "MESSAGE"; body = record { order = 0 } } ∷ [];
  delivered = message 5 ∷ [];
  timers = 0 ∷ [];
}

retry_runs :
    run AtLeastOnce.sender AtLeastOnce.receiver retry
      (start (AtLeastOnce.init_sender "s" "r") (AtLeastOnce.init "r"))
    ≡ some retried
unfolding programs
retry_runs = refl

retried-Run : AtLeastOnceDelivery.Run "s" "r" retried
retried-Run =
    run-Reach AtLeastOnce.sender AtLeastOnce.receiver retry
      (start (AtLeastOnce.init_sender "s" "r") (AtLeastOnce.init "r")) retried retry_runs

alo_forgotten_only_when_delivered_example :
    ((k t : ℕ)
      → get_elem? retried.inputs k ≡ some t
      → Dict.lookup k retried.sender.message_store ≡ none
      → Member t (texts retried.delivered))
    × ((t : ℕ) → Member t (texts retried.delivered) → Member t retried.inputs)
alo_forgotten_only_when_delivered_example =
    AtLeastOnceDelivery.forgotten_only_when_delivered "s" "r" retried retried-Run
