-- ===== src/Gossip/Push.antt =====
-- gossip/push.py: a peer with the info sends it to others at each timer.
use distsys_course_work.Prelude.{ℕ, String, true, false, Option, none, some, List, ◌==◌, text_eq}
use distsys_course_work.Runtime.{Message, Result, ok, ◌>>=◌, set_timer, text_name, Process}
use distsys_course_work.Gossip.{Peer, Ctx, message, gossip, deliver_info}

module _ {Info : Type 0} where
  unfoldable pub on_local_message :
      Peer Info → Message (Option Info) → Ctx Info → Result (Peer Info × Ctx Info)
  unfolding set_timer deliver_info
  on_local_message self msg ctx = elim (msg.type == "START") [
    | true ↦ set_timer "gossip" 1 ctx >>= λ timed. ok (self, timed)
    | false ↦ elim (msg.type == "BROADCAST") [
      | true ↦ deliver_info msg.body self ctx
      | false ↦ ok (self, ctx)
    ]
  ]

  unfoldable pub on_message :
      Peer Info → Message (Option Info) → String → Ctx Info → Result (Peer Info × Ctx Info)
  unfolding deliver_info
  on_message self msg sender ctx = elim (msg.type == "GOSSIP") [
    | false ↦ ok (self, ctx)
    | true ↦ elim self.info [ some _ ↦ ok (self, ctx) | none ↦ deliver_info msg.body self ctx ]
  ]

  unfoldable pub on_timer : List ℕ → Peer Info → String → Ctx Info → Result (Peer Info × Ctx Info)
  unfolding set_timer gossip
  on_timer drawn self timer_name ctx =
      (elim self.info [
        | some info ↦ gossip drawn (message "GOSSIP" (some info)) self ctx
        | none ↦ ok ctx
      ])
      >>= λ sent. set_timer "gossip" 1 sent >>= λ timed. ok (self, timed)

  abbrev pub process :
      List ℕ → Process (Peer Info) (Option Info) (Option Info) (Option Info) (Option Info) String
  process drawn = record {
    on_local_message = on_local_message;
    on_message = on_message;
    on_timer = on_timer drawn;
  }
