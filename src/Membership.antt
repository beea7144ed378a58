-- ===== src/Membership.antt =====
-- homework/06-membership/solution.py: GroupMember. Each message type is a constructor; a type that
-- the class does not name changes nothing and is left out. What randint gives is an argument.
pub mod Tables
pub mod Changes
pub mod Merge
use distsys_course_work.Prelude.{
  ℕ, zero, suc, ◌+◌, ◌*◌, String, Bool, true, false, not, ◌&&◌, ◌||◌, Option, none, some, List, [],
  ◌∷◌, ◌==◌, text_eq, if◌then◌else◌, leb, ltb, length, min, map,
}
use distsys_course_work.Prelude.Dict
use distsys_course_work.Runtime.{
  Message, Context, Result, ok, raise, value_error, key_error, recursion_error, ◌>>=◌, send,
  send_local, set_timer_once, cancel_timer, Process,
}
use distsys_course_work.Runtime.Items.{item}
use distsys_course_work.Membership.Tables.{
  Active, Suspect, ℤ, pos, abs, negate, is_positive, Packet, Command, TimerType, Timer, timer,
  timer_name, GroupMember, Ctx, message, splits_in_two, round_trip, ping_delay, fanout,
  unexpected_init, merge,
}

-- The keys of a dict, in order.
abbrev pub keys : {V : Type 0} → List (String × V) → List String
keys = map (λ e. e.0)

-- The draws of randint, one for each call. A call for which there is none left stands for Python's
-- limit on recursion.
unfoldable pub draw_other : List ℕ → String → Active → Result (String × List ℕ)
draw_other [] id active = raise recursion_error
draw_other (d ∷ draws) id active = item (keys active) d >>= λ random. elim (random == id) [
  | true ↦ draw_other draws id active
  | false ↦ ok (random, draws)
]

unfoldable pub choose_random_active : List ℕ → GroupMember → Result (String × List ℕ)
unfolding draw_other
choose_random_active draws self = elim (leb (length self.active) 1) [
  | true ↦ ok (self.id, draws)
  | false ↦ draw_other draws self.id self.active
]

unfoldable pub choose_random_suspect : List ℕ → GroupMember → Result String
choose_random_suspect draws self = elim (self.suspect) [
  | [] ↦ ok self.id
  | entry ∷ suspect ↦ elim draws [
    | [] ↦ raise recursion_error
    | d ∷ draws' ↦ item (keys (entry ∷ suspect)) d
  ]
]

unfoldable pub on_local_join : GroupMember → String → Ctx → Result (GroupMember × Ctx)
unfolding send set_timer_once
on_local_join self id ctx = elim (self.id == id) [
  | true ↦ do
    timed ← set_timer_once (timer TimerType.ping "") ping_delay ctx
    ok (record self { joined = true; active = (id, 1) ∷ []; suspect = [] }, timed)
  | false ↦ do
    sent ← send (message "JOIN" Packet.join) id ctx
    joining ← set_timer_once (timer TimerType.join id) round_trip sent
    timed ← set_timer_once (timer TimerType.ping "") ping_delay joining
    ok (record self { joined = true; active = []; suspect = [] }, timed)
]

unfoldable pub on_local_leave : List ℕ → GroupMember → Ctx → Result (GroupMember × Ctx)
unfolding choose_random_active send
on_local_leave draws self ctx = do
  (random, rest) ← choose_random_active draws self
  told ← elim (random == self.id) [
    | true ↦ ok ctx
    | false ↦ send (message "LEAVE" Packet.leave) random ctx
  ]
  ok (record self { joined = false; active = []; suspect = [] }, told)

unfoldable pub on_local_message :
    List ℕ → GroupMember → Message Command → Ctx → Result (GroupMember × Ctx)
unfolding on_local_join on_local_leave send_local
on_local_message draws self msg ctx = elim msg.body [
  | Command.join seed ↦ on_local_join self seed ctx
  | Command.leave ↦ on_local_leave draws self ctx
  | Command.get_members ↦ do
    told ← send_local (message "MEMBERS" (keys self.active)) ctx
    ok (self, told)
]

-- The version of a member that joins, and the tables with it.
unfoldable pub admit : String → GroupMember → GroupMember
admit sender self = elim (Dict.lookup sender self.active) [
  | some version ↦ record self { active = Dict.insert sender (version + 1) self.active }
  | none ↦ elim (Dict.lookup sender self.suspect) [
    | some version ↦ record self {
      suspect = Dict.remove sender self.suspect;
      active = Dict.insert sender (abs version + 1) self.active;
    }
    | none ↦ record self { active = Dict.insert sender 1 self.active }
  ]
]

unfoldable pub on_join : GroupMember → String → Ctx → Result (GroupMember × Ctx)
unfolding unexpected_init admit send
on_join self sender ctx = do
  let self' = admit sender (unexpected_init self)
  told ← send (message "JOINREQ" (Packet.joinreq self'.active self'.suspect)) sender ctx
  ok (self', told)

unfoldable pub on_leave : String → GroupMember → GroupMember
on_leave sender self = elim (Dict.lookup sender self.active) [
  | some version ↦ record self {
    suspect = Dict.insert sender (negate (pos version)) self.suspect;
    active = Dict.remove sender self.active;
  }
  | none ↦ elim (Dict.lookup sender self.suspect) [
    | some version ↦
        if is_positive version
        then record self { suspect = Dict.insert sender (negate version) self.suspect }
        else self
    | none ↦ self
  ]
]

unfoldable pub on_joinreq : GroupMember → Active → Suspect → String → Ctx → GroupMember × Ctx
on_joinreq self active suspect sender ctx = (
  record self { active = active; suspect = suspect },
  cancel_timer (timer TimerType.join sender) ctx,
)

unfoldable pub on_ping :
    GroupMember
    → (from reciever : String) → Active
    → Suspect
    → String
    → Ctx
    → Result (GroupMember × Ctx)
unfolding merge send
on_ping self from reciever active suspect sender ctx = elim self.joined [
  | false ↦ do told ← send (message "LEAVE" Packet.leave) sender ctx; ok (self, told)
  | true ↦ do
    self' ← merge active suspect self
    told ← elim (reciever == self.id) [
      | true ↦ send (message "ACK" (Packet.ack from self'.active self'.suspect)) sender ctx
      | false ↦ send (message "PING" (Packet.ping from reciever active suspect)) reciever ctx
    ]
    ok (self', told)
]

unfoldable pub on_ack :
    GroupMember → String → Active → Suspect → String → Ctx → Result (GroupMember × Ctx)
unfolding merge send
on_ack self reciever active suspect sender ctx =
    elim (self.joined && (Dict.has sender self.active || Dict.has sender self.suspect)) [
      | false ↦ do told ← send (message "LEAVE" Packet.leave) sender ctx; ok (self, told)
      | true ↦ do
        self' ← merge active suspect self
        told ← elim (reciever == self.id) [
          | true ↦ ok (
              cancel_timer (timer TimerType.pingthroufailed sender)
                (cancel_timer (timer TimerType.pingfailed sender) ctx))
          | false ↦ send (message "ACK" (Packet.ack reciever active suspect)) reciever ctx
        ]
        ok (self', told)
    ]

unfoldable pub on_message : GroupMember → Message Packet → String → Ctx → Result (GroupMember × Ctx)
unfolding on_join on_leave on_joinreq on_ping on_ack
on_message self msg sender ctx = elim msg.body [
  | Packet.join ↦ on_join self sender ctx
  | Packet.leave ↦ ok (on_leave sender self, ctx)
  | Packet.joinreq active suspect ↦ ok (on_joinreq self active suspect sender ctx)
  | Packet.ping from reciever active suspect ↦ on_ping self from reciever active suspect sender ctx
  | Packet.ack reciever active suspect ↦ on_ack self reciever active suspect sender ctx
]

unfoldable pub on_join_timer : GroupMember → String → Ctx → Result (GroupMember × Ctx)
unfolding send set_timer_once
on_join_timer self id ctx = elim (ltb 1 (length self.active)) [
  | true ↦ ok (self, ctx)
  | false ↦ do
    sent ← send (message "JOIN" Packet.join) id ctx
    timed ← set_timer_once (timer TimerType.join id) round_trip sent
    ok (self, timed)
]

-- A ping to `to` about `reciever`.
abbrev pub send_ping : GroupMember → (to reciever : String) → Ctx → Result Ctx
send_ping self to reciever ctx =
    send (message "PING" (Packet.ping self.id reciever self.active self.suspect)) to ctx

-- The suspect that was drawn, if it has not left, is pinged too.
unfoldable pub ping_suspect : GroupMember → String → Ctx → Result Ctx
unfolding send
ping_suspect self id ctx = elim (id == self.id) [
  | true ↦ ok ctx
  | false ↦ elim (Dict.lookup id self.suspect) [
    | none ↦ raise key_error
    | some version ↦ if is_positive version then send_ping self id id ctx else ok ctx
  ]
]

unfoldable pub on_ping_timer : List ℕ → GroupMember → Ctx → Result (GroupMember × Ctx)
unfolding choose_random_active choose_random_suspect send set_timer_once ping_suspect
on_ping_timer draws self ctx = do
  timed ← set_timer_once (timer TimerType.ping "") ping_delay ctx
  (active_random, rest) ← choose_random_active draws self
  pinged ← elim (active_random == self.id) [
    | true ↦ ok timed
    | false ↦ do
      sent ← send_ping self active_random active_random timed
      set_timer_once (timer TimerType.pingfailed active_random) round_trip sent
  ]
  suspect_random ← choose_random_suspect rest self
  told ← ping_suspect self suspect_random pinged
  ok (self, told)

-- The loop that asks other members to ping `id`.
unfoldable pub ping_through : ℕ → List ℕ → GroupMember → String → Ctx → Result Ctx
unfolding choose_random_active send
ping_through zero draws self id ctx = ok ctx
ping_through (suc n) draws self id ctx = do
  (active_random, rest) ← choose_random_active draws self
  sent ← elim (active_random == self.id) [
    | true ↦ ok ctx
    | false ↦ send_ping self active_random id ctx
  ]
  ping_through n rest self id sent

unfoldable pub suspect_member : String → GroupMember → GroupMember
suspect_member id self = elim (Dict.lookup id self.active) [
  | none ↦ self
  | some version ↦ record self {
    suspect = Dict.insert id (pos version) self.suspect;
    active = Dict.remove id self.active;
  }
]

unfoldable pub on_timer : List ℕ → GroupMember → Timer → Ctx → Result (GroupMember × Ctx)
unfolding on_join_timer on_ping_timer ping_through set_timer_once suspect_member
on_timer draws self name ctx = elim (splits_in_two name) [
  | false ↦ raise value_error
  | true ↦ elim name.timer_type [
    | TimerType.join ↦ on_join_timer self name.id ctx
    | TimerType.ping ↦ on_ping_timer draws self ctx
    | TimerType.pingfailed ↦ do
      sent ← ping_through (min fanout (length self.active)) draws self name.id ctx
      timed ← set_timer_once (timer TimerType.pingthroufailed name.id) (round_trip * 2) sent
      ok (self, timed)
    | TimerType.pingthroufailed ↦ ok (suspect_member name.id self, ctx)
  ]
]

-- A member whose randint gives these draws in each callback.
abbrev pub process : List ℕ → Process GroupMember Command Packet Packet (List String) Timer
process draws = record {
  on_local_message = on_local_message draws;
  on_message = on_message;
  on_timer = on_timer draws;
}
