-- ===== src/Tests/Programs.antt =====
-- Messages, schedules, and what a run of the processes has to compute with.
use distsys_course_work.Prelude.{ℕ, List, [], ◌∷◌}
use distsys_course_work.Prelude.Dict
use distsys_course_work.Prelude.HashSet
use distsys_course_work.Runtime.{Message, digits}
use distsys_course_work.Runtime.Loop.{while}
use distsys_course_work.Guarantees.{Data, Ack}
use distsys_course_work.Guarantees.Link.{apply_timers}
use distsys_course_work.Guarantees.Link.Schedule.{Event, submits, arrives, acknowledges, fires, run}
use distsys_course_work.Guarantees.Window
use distsys_course_work.Guarantees.Ordered
use distsys_course_work.Guarantees.ExactlyOnce
use distsys_course_work.Guarantees.AtMostOnce
use distsys_course_work.Guarantees.AtLeastOnce

abbrev pub message : ℕ → Message ℕ
message n = record { type = "MESSAGE"; body = n }

abbrev pub data_message : ℕ → ℕ → Message (Data ℕ)
data_message k n = record { type = "MESSAGE"; body = record { order = k; text = n } }

abbrev pub ack_message : ℕ → ℕ → Message Ack
ack_message k n = record { type = "MESSAGE"; body = record { order = k; lower_bound = n } }

-- Two messages are submitted; the second arrives first, and again at the end.
abbrev pub reordering : List (Event ℕ)
reordering =
    submits (message 5)
    ∷ submits (message 6)
    ∷ arrives 1
    ∷ acknowledges 0
    ∷ arrives 0
    ∷ arrives 1
    ∷ []

-- The second message is stored and waits for the first.
abbrev pub waiting : List (Event ℕ)
waiting = submits (message 5) ∷ submits (message 6) ∷ arrives 1 ∷ []

-- The first message is lost and sent again by its timer; all is acknowledged.
abbrev pub retry : List (Event ℕ)
retry = submits (message 5) ∷ fires 0 ∷ arrives 1 ∷ acknowledges 0 ∷ []

unfoldable pub programs : Unit {0}
unfolding Window.on_local_message Window.on_message Window.on_timer Ordered.on_message
    ExactlyOnce.on_message ExactlyOnce.deliver_new ExactlyOnce.move_bounds
    AtMostOnce.on_local_message AtMostOnce.on_message AtMostOnce.deliver_new AtMostOnce.prune
    AtLeastOnce.on_local_message AtLeastOnce.on_ack AtLeastOnce.on_timer AtLeastOnce.on_message run
    digits Dict.lookup Dict.has Dict.insert Dict.remove HashSet.contains HashSet.add HashSet.discard
    apply_timers while
programs = tt
