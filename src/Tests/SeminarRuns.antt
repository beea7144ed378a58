-- ===== src/Tests/SeminarRuns.antt =====
-- Runs of the gossip peers and of the ping-pong client.
use distsys_course_work.Prelude.{
  ℕ, length, ◌≤◌, ◌≡◌, refl, Option, true, false, none, some, List, [], ◌∷◌, nat_eq, text_eq,
}
use distsys_course_work.Runtime.{
  Message, ok, fresh, send, send_local, set_timer, cancel_timer, set, cancel,
}
use distsys_course_work.Gossip
use distsys_course_work.Gossip.{Peer, Ctx, message, str, str_from}
use distsys_course_work.Gossip.Push
use distsys_course_work.Gossip.Pull
use distsys_course_work.Gossip.PushPullStop
use distsys_course_work.Gossip.PushPullStop.{StoppingPeer}
use distsys_course_work.Gossip.Once.{History, told_once, count_type}
use distsys_course_work.PingPong.Retry
use distsys_course_work.PingPong.Pongs
use distsys_course_work.PingPong.Basic.{Ctx as PingCtx}
use distsys_course_work.PingPong.Retry.{RetryClient}

twelve : str 12 ≡ "12"
unfolding str_from
twelve = refl

abbrev peer : Peer ℕ
peer = record { id = 1; proc_count = 3; peers = 0 ∷ 2 ∷ []; fanout = 1; info = none }

peer_starts : Gossip.init 1 3 1 ≡ peer
unfolding Gossip.init Gossip.peers_from
peer_starts = refl

-- A peer of push.py with the info sends it to the sampled peer, and sets its timer again.
push_sends :
    Push.on_timer (2 ∷ []) (record peer { info = some 7 }) "gossip" (fresh 4)
    ≡ ok (
      record peer { info = some 7 },
      record {
        time = 4;
        sent = (message "GOSSIP" (some 7), "2") ∷ [];
        sent_local = [];
        timer_actions = set "gossip" 1 ∷ [];
      },
    )
unfolding Push.on_timer Gossip.gossip Gossip.sample Gossip.send_all send set_timer str_from
push_sends = refl

-- A peer of pull.py stops as soon as it has the info.
pull_stops :
    Pull.on_message peer (message "GOSSIP_RESP" (some 7)) "0" (fresh 4)
    ≡ ok (
      record peer { info = some 7 },
      record {
        time = 4;
        sent = [];
        sent_local = message "DELIVER" (some 7) ∷ message "STOPPED" none ∷ [];
        timer_actions = cancel "gossip" ∷ [];
      },
    )
unfolding Pull.on_message Pull.got_info send_local cancel_timer
pull_stops = refl

abbrev informed : StoppingPeer ℕ
informed = record { peer = record peer { info = some 7 }; stop_prob = 8; stopped = false }

abbrev told : Ctx ℕ
told = record {
  time = 4;
  sent = [];
  sent_local = message "DELIVER" (some 7) ∷ [];
  timer_actions = [];
}

abbrev stop : Ctx ℕ
stop = record {
  time = 5;
  sent = [];
  sent_local = message "STOPPED" none ∷ [];
  timer_actions = cancel "gossip" ∷ [];
}

informed-History : History 1 3 1 informed (message "DELIVER" (some 7) ∷ [])
unfolding Gossip.init Gossip.peers_from PushPullStop.on_message PushPullStop.got_info send_local
informed-History =
    History.arrival (PushPullStop.init 1 3 1) informed [] 4 9 (message "GOSSIP_RESP" (some 7)) "0"
      told refl History.start refl

stopped-History :
    History 1 3 1
      (record informed { stopped = true })
      (message "DELIVER" (some 7) ∷ message "STOPPED" none ∷ [])
unfolding PushPullStop.on_message PushPullStop.got_info PushPullStop.try_stop send_local
    cancel_timer
stopped-History =
    History.arrival informed (record informed { stopped = true }) (message "DELIVER" (some 7) ∷ [])
      5 3 (message "GOSSIP_RESP" (some 7)) "0" stop refl informed-History refl

abbrev all_told : List (Message (Option ℕ))
all_told = message "DELIVER" (some 7) ∷ message "STOPPED" none ∷ []

told_once_example : (count_type "DELIVER" all_told ≤ 1) × (count_type "STOPPED" all_told ≤ 1)
told_once_example = told_once 1 3 1 (record informed { stopped = true }) all_told stopped-History

abbrev ping : Message ℕ
ping = record { type = "PING"; body = 3 }

abbrev waiting : RetryClient ℕ
waiting = record { id = "c"; server_id = "s"; ping = some ping }

-- The client sends its ping again when the timer fires.
retry_sends :
    Retry.on_timer waiting "check_pong" (fresh 6)
    ≡ ok (
      waiting,
      record {
        time = 6;
        sent = (ping, "s") ∷ [];
        sent_local = [];
        timer_actions = set "check_pong" 3 ∷ [];
      },
    )
unfolding Retry.on_timer send set_timer
retry_sends = refl

abbrev pong : Message ℕ
pong = record { type = "PONG"; body = 3 }

abbrev submitted : PingCtx ℕ
submitted = record {
  time = 2;
  sent = (ping, "s") ∷ [];
  sent_local = [];
  timer_actions = set "check_pong" 3 ∷ [];
}

abbrev ponged : PingCtx ℕ
ponged = record {
  time = 3;
  sent = [];
  sent_local = pong ∷ [];
  timer_actions = cancel "check_pong" ∷ [];
}

waiting-History : Pongs.History "c" "s" waiting [] 1
unfolding Retry.on_local_message send set_timer
waiting-History =
    Pongs.History.local_message (Retry.init "c" "s") waiting [] 0 2 ping submitted
      Pongs.History.start refl

answered-History : Pongs.History "c" "s" (Retry.init "c" "s") (pong ∷ []) 1
unfolding Retry.on_message send_local cancel_timer
answered-History =
    Pongs.History.arrival waiting (Retry.init "c" "s") [] 1 3 pong "s" ponged waiting-History refl

abbrev pongs : List (Message ℕ)
pongs = pong ∷ []

one_pong_per_ping_example : length pongs ≤ 1
one_pong_per_ping_example =
    Pongs.one_pong_per_ping "c" "s" (Retry.init "c" "s") pongs 1 answered-History
