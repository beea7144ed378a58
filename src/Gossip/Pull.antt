-- ===== src/Gossip/Pull.antt =====
-- gossip/pull.py: a peer without the info asks others for it at each timer.
use distsys_course_work.Prelude.{ℕ, String, true, false, Option, none, some, List, ◌==◌, text_eq}
use distsys_course_work.Runtime.{
  Message, Result, ok, ◌>>=◌, send, send_local, set_timer, cancel_timer, text_name, Process,
}
use distsys_course_work.Gossip.{Peer, Ctx, message, gossip}

module _ {Info : Type 0} where
  unfoldable pub got_info : Option Info → Peer Info → Ctx Info → Result (Peer Info × Ctx Info)
  unfolding send_local cancel_timer
  got_info info self ctx = do
    told ← send_local (message "DELIVER" info) ctx
    stopped ← send_local (message "STOPPED" none) (cancel_timer "gossip" told)
    ok (record self { info = info }, stopped)

  unfoldable pub on_local_message :
      Peer Info → Message (Option Info) → Ctx Info → Result (Peer Info × Ctx Info)
  unfolding set_timer got_info
  on_local_message self msg ctx = elim (msg.type == "START") [
    | true ↦ set_timer "gossip" 1 ctx >>= λ timed. ok (self, timed)
    | false ↦ elim (msg.type == "BROADCAST") [
      | true ↦ got_info msg.body self ctx
      | false ↦ ok (self, ctx)
    ]
  ]

  unfoldable pub on_message :
      Peer Info → Message (Option Info) → String → Ctx Info → Result (Peer Info × Ctx Info)
  unfolding got_info send
  on_message self msg sender ctx = elim self.info [
    | some info ↦ elim (msg.type == "GOSSIP_REQ") [
      | true ↦ send (message "GOSSIP_RESP" (some info)) sender ctx >>= λ sent. ok (self, sent)
      | false ↦ ok (self, ctx)
    ]
    | none ↦ elim (msg.type == "GOSSIP_RESP") [
      | true ↦ got_info msg.body self ctx
      | false ↦ ok (self, ctx)
    ]
  ]

  unfoldable pub on_timer : List ℕ → Peer Info → String → Ctx Info → Result (Peer Info × Ctx Info)
  unfolding set_timer gossip
  on_timer drawn self timer_name ctx =
      (elim self.info [
        | none ↦ gossip drawn (message "GOSSIP_REQ" none) self ctx
        | some _ ↦ ok ctx
      ])
      >>= λ sent. set_timer "gossip" 1 sent >>= λ timed. ok (self, timed)

  abbrev pub process :
      List ℕ → Process (Peer Info) (Option Info) (Option Info) (Option Info) (Option Info) String
  process drawn = record {
    on_local_message = on_local_message;
    on_message = on_message;
    on_timer = on_timer drawn;
  }
