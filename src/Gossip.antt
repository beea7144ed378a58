-- ===== src/Gossip.antt =====
-- seminars/04-broadcast/gossip: what the four classes Peer have alike. The list that random.sample
-- gives is an argument. A message without the key `info` has none.
pub mod Push
pub mod Pull
pub mod PushPull
pub mod PushPullStop
pub mod Once
use Prim.Native.String.{◌++◌}
use distsys_course_work.Prelude.{
  ℕ, zero, suc, ◌+◌, ◌/◌, ◌%◌, String, Bool, true, false, Option, none, some, List, [], ◌∷◌, ltb,
  if◌then◌else◌, length, ◌==◌, nat_eq,
}
use distsys_course_work.Runtime.{
  Message, Context, Result, ok, raise, value_error, ◌>>=◌, send, send_local,
}

pub record Peer (Info : Type 0) : Type 0 where
  pub id : ℕ
  pub proc_count : ℕ
  pub peers : List ℕ
  pub fanout : ℕ
  pub info : Option Info

-- [id for id in range(i, i + n) if id != own]
unfoldable pub peers_from : ℕ → ℕ → ℕ → List ℕ
peers_from zero i own = []
peers_from (suc n) i own =
    let rest = peers_from n (i + 1) own in if i == own then rest else i ∷ rest

unfoldable pub init : {Info : Type 0} → ℕ → ℕ → ℕ → Peer Info
unfolding peers_from
init proc_id proc_count fanout = record {
  id = proc_id;
  proc_count = proc_count;
  peers = peers_from proc_count 0 proc_id;
  fanout = fanout;
  info = none;
}

-- str(d), of a digit
abbrev pub digit : ℕ → String
digit d =
    if ltb d 1
    then "0"
    else if ltb d 2
    then "1"
    else if ltb d 3
    then "2"
    else if ltb d 4
    then "3"
    else if ltb d 5
    then "4"
    else if ltb d 6
    then "5"
    else if ltb d 7
    then "6"
    else if ltb d 8
    then "7"
    else if ltb d 9
    then "8"
    else "9"

-- str(n), with fuel; n + 1 is enough.
unfoldable pub str_from : ℕ → ℕ → String
str_from zero n = ""
str_from (suc fuel) n =
    let rest = str_from fuel (n / 10) in if ltb n 10 then digit n else rest ++ digit (n % 10)

abbrev pub str : ℕ → String
str n = str_from (suc n) n

-- random.sample(peers, fanout)
unfoldable pub sample : List ℕ → List ℕ → ℕ → Result (List ℕ)
sample drawn peers fanout = if ltb (length peers) fanout then raise value_error else ok drawn

abbrev pub Ctx : Type 0 → Type 0
Ctx Info = Context (Option Info) (Option Info) String

module _ {Info : Type 0} where
  abbrev pub message : String → Option Info → Message (Option Info)
  message type info = record { type = type; body = info }

  -- The loop over the sample.
  unfoldable pub send_all : Message (Option Info) → List ℕ → Ctx Info → Result (Ctx Info)
  unfolding send str_from
  send_all msg [] ctx = ok ctx
  send_all msg (peer ∷ peers) ctx = send msg (str peer) ctx >>= send_all msg peers

  unfoldable pub gossip : List ℕ → Message (Option Info) → Peer Info → Ctx Info → Result (Ctx Info)
  unfolding sample send_all
  gossip drawn msg self ctx =
      sample drawn self.peers self.fanout >>= λ peers. send_all msg peers ctx

  -- got_info of push.py and push_pull.py
  unfoldable pub deliver_info : Option Info → Peer Info → Ctx Info → Result (Peer Info × Ctx Info)
  unfolding send_local
  deliver_info info self ctx =
      send_local (message "DELIVER" info) ctx >>= λ told. ok (record self { info = info }, told)
