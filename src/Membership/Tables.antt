-- ===== src/Membership/Tables.antt =====
-- The tables of GroupMember, their messages, and _merge.
use Prim.Native.String.{count}
use text.Mathlib.Text.{find?}
use distsys_course_work.Prelude.{
  ℕ, zero, suc, ◌+◌, String, Bool, true, false, not, ◌&&◌, none, some, List, [], ◌∷◌, ◌==◌, text_eq,
  if◌then◌else◌, leb, ltb,
}
use distsys_course_work.Prelude.Dict
use distsys_course_work.Runtime.{Message, Context, Result, ok, raise, key_error, ◌>>=◌, TimerName}

-- The version of a suspect: at least 0, or below 0 for one that has left.
pub data ℤ : Type 0 where
  pos : ℕ → ℤ
  negsuc : ℕ → ℤ

abbrev pub abs : ℤ → ℕ
abs (pos n) = n
abs (negsuc n) = suc n

abbrev pub negate : ℤ → ℤ
negate (pos zero) = pos zero
negate (pos (suc n)) = negsuc n
negate (negsuc n) = pos (suc n)

abbrev pub is_positive : ℤ → Bool
is_positive (pos n) = ltb 0 n
is_positive (negsuc n) = false

-- The version of a member starts at 1 and only grows, so it is a natural number.
abbrev pub Active : Type 0
Active = List (String × ℕ)

abbrev pub Suspect : Type 0
Suspect = List (String × ℤ)

-- Delays in tenths of a unit of time.
abbrev pub round_trip : ℕ
round_trip = 11

abbrev pub ping_delay : ℕ
ping_delay = 39

abbrev pub fanout : ℕ
fanout = 8

pub data Packet : Type 0 where
  join leave : Packet
  joinreq : Active → Suspect → Packet
  ping : (sender reciever : String) → Active → Suspect → Packet
  ack : (reciever : String) → Active → Suspect → Packet

pub data Command : Type 0 where
  join : String → Command
  leave get_members : Command

-- "join_" and the id, and so on: what stands before the first "_" of a timer's name, and the rest.
pub data TimerType : Type 0 where
  join ping pingfailed pingthroufailed : TimerType

pub record Timer : Type 0 where
  pub timer_type : TimerType
  pub id : String

abbrev pub type_length : TimerType → ℕ
type_length TimerType.join = 4
type_length TimerType.ping = 4
type_length TimerType.pingfailed = 10
type_length TimerType.pingthroufailed = 15

instance abbrev pub timer_name : TimerName Timer
timer_name = record { len = λ t. type_length t.timer_type + 1 + count t.id }

-- timer_name.split("_") has two parts
abbrev pub splits_in_two : Timer → Bool
splits_in_two t = elim (find? t.id "_") [ none ↦ true | some _ ↦ false ]

pub record GroupMember : Type 0 where
  pub id : String
  pub joined : Bool
  pub active : Active
  pub suspect : Suspect

abbrev pub init : String → GroupMember
init proc_id = record { id = proc_id; joined = false; active = []; suspect = [] }

abbrev pub Ctx : Type 0
Ctx = Context Packet (List String) Timer

abbrev pub message : {D : Type 0} → String → D → Message D
message type body = record { type = type; body = body }

abbrev pub timer : TimerType → String → Timer
timer type id = record { timer_type = type; id = id }

-- self._active[id] += 1, of an id that is there
unfoldable pub raise_version : String → Active → Result Active
raise_version id active = elim (Dict.lookup id active) [
  | none ↦ raise key_error
  | some version ↦ ok (Dict.insert id (version + 1) active)
]

unfoldable pub unexpected_init : GroupMember → GroupMember
unexpected_init self = elim self.active [
  | [] ↦ record self { joined = true; active = (self.id, 1) ∷ []; suspect = [] }
  | _ ∷ _ ↦ self
]

-- The body of the loop over the suspects of a message.
unfoldable pub merge_suspect : String → ℤ → GroupMember → GroupMember
merge_suspect id version self = elim (Dict.lookup id self.active) [
  | some own ↦
      if leb own (abs version) && not (id == self.id)
      then record self {
        active = Dict.remove id self.active;
        suspect = Dict.insert id version self.suspect;
      }
      else (elim (Dict.lookup id self.suspect) [
        | some known ↦
            if ltb (abs known) (abs version)
            then record self { suspect = Dict.insert id version self.suspect }
            else self
        | none ↦ self
      ])
  | none ↦ elim (Dict.lookup id self.suspect) [
    | some known ↦
        if ltb (abs known) (abs version)
        then record self { suspect = Dict.insert id version self.suspect }
        else self
    | none ↦
        if is_positive version
        then record self { suspect = Dict.insert id version self.suspect }
        else self
  ]
]

unfoldable pub merge_suspects : Suspect → GroupMember → GroupMember
unfolding merge_suspect
merge_suspects [] self = self
merge_suspects ((id, version) ∷ suspect) self =
    merge_suspects suspect (merge_suspect id version self)

-- The later tests of the loop over the active members of a message.
unfoldable pub merge_suspected : String → ℕ → GroupMember → GroupMember
merge_suspected id version self = elim (Dict.lookup id self.suspect) [
  | some known ↦
      if ltb (abs known) version
      then record self {
        suspect = Dict.remove id self.suspect;
        active = Dict.insert id version self.active;
      }
      else self
  | none ↦
      if Dict.has id self.active
      then self
      else record self { active = Dict.insert id version self.active }
]

-- The body of that loop.
unfoldable pub merge_active : String → ℕ → GroupMember → GroupMember
unfolding merge_suspected
merge_active id version self = elim (Dict.lookup id self.active) [
  | some own ↦
      if ltb own version
      then record self { active = Dict.insert id version self.active }
      else merge_suspected id version self
  | none ↦ merge_suspected id version self
]

unfoldable pub merge_actives : Active → GroupMember → GroupMember
unfolding merge_active
merge_actives [] self = self
merge_actives ((id, version) ∷ active) self = merge_actives active (merge_active id version self)

-- A member that hears that it is suspected raises its version.
unfoldable pub refute : Suspect → GroupMember → Result GroupMember
unfolding raise_version
refute suspect self = elim (Dict.has self.id suspect) [
  | false ↦ ok self
  | true ↦ raise_version self.id self.active >>= λ active. ok (record self { active = active })
]

unfoldable pub merge : Active → Suspect → GroupMember → Result GroupMember
unfolding unexpected_init merge_suspects merge_actives refute
merge active suspect self = refute suspect (unexpected_init self) >>= λ self'.
    ok (merge_actives active (merge_suspects suspect self'))
