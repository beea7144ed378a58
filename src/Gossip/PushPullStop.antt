-- ===== src/Gossip/PushPullStop.antt =====
-- gossip/push_pull_stop.py: push and pull; a peer that hears old news may stop. What random.uniform
-- gives is an argument, in tenths.
use distsys_course_work.Prelude.{
  ℕ, String, Bool, true, false, Option, none, some, List, ◌==◌, ltb, text_eq,
}
use distsys_course_work.Runtime.{
  Message, Result, ok, ◌>>=◌, send, send_local, set_timer, cancel_timer, text_name, Process,
}
use distsys_course_work.Gossip
use distsys_course_work.Gossip.{Peer, Ctx, message, gossip}

pub record StoppingPeer (Info : Type 0) : Type 0 where
  pub peer : Peer Info
  pub stop_prob : ℕ
  pub stopped : Bool

abbrev pub init : {Info : Type 0} → ℕ → ℕ → ℕ → StoppingPeer Info
init proc_id proc_count fanout = record {
  peer = Gossip.init proc_id proc_count fanout;
  stop_prob = 8;
  stopped = false;
}

module _ {Info : Type 0} where
  unfoldable pub try_stop : ℕ → StoppingPeer Info → Ctx Info → Result (StoppingPeer Info × Ctx Info)
  unfolding send_local cancel_timer
  try_stop draw self ctx = elim self.stopped [
    | true ↦ ok (self, ctx)
    | false ↦ elim (ltb draw self.stop_prob) [
      | false ↦ ok (self, ctx)
      | true ↦ send_local (message "STOPPED" none) (cancel_timer "gossip" ctx) >>= λ told.
          ok (record self { stopped = true }, told)
    ]
  ]

  unfoldable pub got_info :
      ℕ → Option Info → StoppingPeer Info → Ctx Info → Result (StoppingPeer Info × Ctx Info)
  unfolding send_local try_stop
  got_info draw info self ctx = elim self.peer.info [
    | none ↦ send_local (message "DELIVER" info) ctx >>= λ told.
        ok (record self { peer = record self.peer { info = info } }, told)
    | some _ ↦ try_stop draw self ctx
  ]

  unfoldable pub on_local_message :
      ℕ
      → StoppingPeer Info
      → Message (Option Info)
      → Ctx Info
      → Result (StoppingPeer Info × Ctx Info)
  unfolding set_timer got_info
  on_local_message draw self msg ctx = elim (msg.type == "START") [
    | true ↦ set_timer "gossip" 1 ctx >>= λ timed. ok (self, timed)
    | false ↦ elim (msg.type == "BROADCAST") [
      | true ↦ got_info draw msg.body self ctx
      | false ↦ ok (self, ctx)
    ]
  ]

  unfoldable pub on_message :
      ℕ
      → StoppingPeer Info
      → Message (Option Info)
      → String
      → Ctx Info
      → Result (StoppingPeer Info × Ctx Info)
  unfolding got_info send
  on_message draw self msg sender ctx = elim (msg.type == "GOSSIP_REQ") [
    | true ↦ elim self.peer.info [
      | some info ↦ send (message "GOSSIP_RESP" (some info)) sender ctx >>= λ sent. ok (self, sent)
      | none ↦ elim msg.body [
        | some info ↦ got_info draw (some info) self ctx
        | none ↦ ok (self, ctx)
      ]
    ]
    | false ↦ elim (msg.type == "GOSSIP_RESP") [
      | true ↦ got_info draw msg.body self ctx
      | false ↦ ok (self, ctx)
    ]
  ]

  unfoldable pub on_timer :
      List ℕ → StoppingPeer Info → String → Ctx Info → Result (StoppingPeer Info × Ctx Info)
  unfolding set_timer gossip
  on_timer drawn self timer_name ctx =
      gossip drawn (message "GOSSIP_REQ" self.peer.info) self.peer ctx >>= λ sent.
      set_timer "gossip" 1 sent >>= λ timed. ok (self, timed)

  abbrev pub process :
      ℕ
      → List ℕ
      → Process (StoppingPeer Info) (Option Info) (Option Info) (Option Info) (Option Info) String
  process draw drawn = record {
    on_local_message = on_local_message draw;
    on_message = on_message draw;
    on_timer = on_timer drawn;
  }
