-- ===== src/Gossip/Once.antt =====
-- Histories of one peer of push_pull_stop.py: what it tells its user at most once.
use mathlib.Core.List.{append_assoc, append-nil}
use Prim.Native.String.{count}
use distsys_course_work.Prelude.{
  ℕ, suc, ◌+◌, ◌≤◌, ◌≡◌, refl, String, Bool, true, false, ◌||◌, Option, none, some, List, [], ◌∷◌,
  ◌++◌, ◌==◌, text_eq, if◌then◌else◌, ltb, arith, Bool-cases, Option-cases, inl, inr, ap, subst,
  length, sym, ◌∙◌,
}
use distsys_course_work.Runtime.{
  Message, Result, ok, raise, ok-injective, ◌>>=◌, fresh, name_limit, value_error, set, send,
  send_local, set_timer, cancel_timer,
}
use distsys_course_work.Gossip
use distsys_course_work.Gossip.{Peer, Ctx, str, message, gossip, send_all, sample}
use distsys_course_work.Gossip.PushPullStop.{
  StoppingPeer, init, try_stop, got_info, on_local_message, on_message, on_timer,
}

-- How many messages of this type the user has been told.
unfoldable pub count_type : {D : Type 0} → String → List (Message D) → ℕ
count_type type [] = 0
count_type type (msg ∷ msgs) =
    let rest = count_type type msgs in if msg.type == type then suc rest else rest

count_type-append :
    {D : Type 0} (type : String) (msgs : List (Message D)) (msg : Message D)
    → count_type type (msgs ++ msg ∷ [])
      ≡ count_type type msgs + (if msg.type == type then 1 else 0)
unfolding count_type
count_type-append type [] msg = ground arith
count_type-append type (m ∷ msgs) msg = ground (arith, count_type-append type msgs msg)

module _ {Info : Type 0} where
  abbrev undelivered : StoppingPeer Info → ℕ
  undelivered self = elim self.peer.info [ none ↦ 1 | some _ ↦ 0 ]

  abbrev running : StoppingPeer Info → ℕ
  running self = if self.stopped then 0 else 1

  -- What the user has been told, together with what may follow.
  abbrev Fits : StoppingPeer Info → List (Message (Option Info)) → Type 0
  Fits self told =
      (count_type "DELIVER" told + undelivered self ≤ 1)
      × (count_type "STOPPED" told + running self ≤ 1)

  -- A callback that returns, and fits.
  abbrev Returns : List (Message (Option Info)) → Result (StoppingPeer Info × Ctx Info) → Type 0
  Returns prior result =
      (self : StoppingPeer Info) × (ctx : Ctx Info) × (result ≡ ok (self, ctx))
      × Fits self (prior ++ ctx.sent_local)

  -- The message has the info, or is a request, which may come without it.
  abbrev pub carries : Message (Option Info) → Bool
  carries msg = msg.type == "GOSSIP_REQ" || (elim msg.body [ none ↦ false | some _ ↦ true ])

  module _ (prior : List (Message (Option Info))) (self : StoppingPeer Info) (ctx : Ctx Info)
      (fits : Fits self (prior ++ ctx.sent_local)) where
    try_stop-Returns : (draw : ℕ) → Returns prior (try_stop draw self ctx)
    unfolding try_stop send_local cancel_timer
    try_stop-Returns draw =
        let nothing : Option Info = none in
        elim (Bool-cases self.stopped) [
          | inl stopped ↦ (self, ctx, simp (try_stop, stopped) refl, fits)
          | inr going ↦ elim (Bool-cases (ltb draw self.stop_prob)) [
            | inr lucky ↦ (self, ctx, simp (try_stop, going, lucky) refl, fits)
            | inl stops ↦ (
              record self { stopped = true },
              record (cancel_timer "gossip" ctx) {
                sent_local = ctx.sent_local ++ message "STOPPED" none ∷ [];
              },
              simp (try_stop, going, stops, ◌>>=◌) refl,
              rw (← append_assoc) (
                  ground (
                    arith,
                    fits,
                    going,
                    count_type-append "DELIVER" (prior ++ ctx.sent_local)
                        (message "STOPPED" nothing),
                    count_type-append "STOPPED" (prior ++ ctx.sent_local)
                        (message "STOPPED" nothing),
                  )),
            )
          ]
        ]

    got_info-Returns : (draw : ℕ) (info : Info) → Returns prior (got_info draw (some info) self ctx)
    unfolding got_info send_local
    got_info-Returns draw info = elim (Option-cases self.peer.info) [
      | inr (old, known) ↦ rw (got_info, known) (try_stop-Returns draw)
      | inl new ↦ (
        record self { peer = record self.peer { info = some info } },
        record ctx { sent_local = ctx.sent_local ++ message "DELIVER" (some info) ∷ [] },
        rw (got_info, new, ◌>>=◌) refl,
        rw (← append_assoc) (
            ground (
              arith,
              fits,
              new,
              count_type-append "DELIVER" (prior ++ ctx.sent_local) (message "DELIVER" (some info)),
              count_type-append "STOPPED" (prior ++ ctx.sent_local) (message "DELIVER" (some info)),
            )),
      )
    ]

    on_message-Returns :
        (draw : ℕ) (msg : Message (Option Info)) (sender : String)
        → carries msg ≡ true
        → Returns prior (on_message draw self msg sender ctx)
    unfolding on_message send
    on_message-Returns draw msg sender has_info = elim (Bool-cases (msg.type == "GOSSIP_REQ")) [
      | inl asks ↦ elim (Option-cases self.peer.info) [
        | inr (info, known) ↦ (
          self,
          record ctx { sent = ctx.sent ++ (message "GOSSIP_RESP" (some info), sender) ∷ [] },
          simp (on_message, asks, known, ◌>>=◌) refl,
          fits,
        )
        | inl new ↦ elim (Option-cases msg.body) [
          | inl empty ↦ (self, ctx, simp (on_message, asks, new, empty) refl, fits)
          | inr (info, news) ↦ rw (on_message, asks, new, news) (got_info-Returns draw info)
        ]
      ]
      | inr tells ↦ elim (Bool-cases (msg.type == "GOSSIP_RESP")) [
        | inr other ↦ (self, ctx, simp (on_message, tells, other) refl, fits)
        | inl answers ↦ elim (Option-cases msg.body) [
          | inl empty ↦ absurd (ground (arith, has_info, tells, empty))
          | inr (info, news) ↦ rw (on_message, tells, answers, news) (got_info-Returns draw info)
        ]
      ]
    ]

    on_local_message-Returns :
        (draw : ℕ) (msg : Message (Option Info)) (info : Info)
        → msg.body ≡ some info
        → Returns prior (on_local_message draw self msg ctx)
    unfolding on_local_message set_timer
    on_local_message-Returns draw msg info news = elim (Bool-cases (msg.type == "START")) [
      | inl starts ↦ (
        self,
        record ctx { timer_actions = ctx.timer_actions ++ set "gossip" 1 ∷ [] },
        rw (on_local_message, starts, ◌>>=◌) refl,
        fits,
      )
      | inr other ↦ elim (Bool-cases (msg.type == "BROADCAST")) [
        | inr neither ↦ (self, ctx, rw (on_local_message, other, neither) refl, fits)
        | inl here ↦ rw (on_local_message, other, here, news) (got_info-Returns draw info)
      ]
    ]

  send_all-sends :
      (msg : Message (Option Info)) (peers : List ℕ) (ctx : Ctx Info)
      → ltb name_limit (count msg.type) ≡ false
      → (ctx' : Ctx Info) × (send_all msg peers ctx ≡ ok ctx') × (ctx'.sent_local ≡ ctx.sent_local)
  unfolding send_all send
  send_all-sends msg [] ctx short = (ctx, refl, refl)
  send_all-sends msg (peer ∷ peers) ctx short =
      let (ctx', run, same) =
        send_all-sends msg peers (record ctx { sent = ctx.sent ++ (msg, str peer) ∷ [] }) short in
      (ctx', rw (short, if◌then◌else◌, ◌>>=◌) run, same)

  on_timer-keeps :
      (drawn : List ℕ) (self self' : StoppingPeer Info) (name : String) (ctx ctx' : Ctx Info)
      → on_timer drawn self name ctx ≡ ok (self', ctx')
      → (self' ≡ self) × (ctx'.sent_local ≡ ctx.sent_local)
  unfolding on_timer gossip sample set_timer
  on_timer-keeps drawn self self' name ctx ctx' e =
      let (sent, run, same) = send_all-sends (message "GOSSIP_REQ" self.peer.info) drawn ctx refl in
      elim (Bool-cases (ltb (length self.peer.peers) self.peer.fanout)) [
        | inl few ↦
            let raises : on_timer drawn self name ctx ≡ raise value_error =
              simp (on_timer, gossip, sample, few, if◌then◌else◌, ◌>>=◌) refl in
            absurd (cc (sym raises ∙ e))
        | inr enough ↦
            let timed : Ctx Info = record sent {
              timer_actions = sent.timer_actions ++ set "gossip" 1 ∷ [];
            } in
            let returns : on_timer drawn self name ctx ≡ ok (self, timed) =
              simp (on_timer, gossip, sample, enough, if◌then◌else◌, ◌>>=◌, run) refl in
            let both = ok-injective (sym returns ∙ e) in
            (sym (ap (λ p. p.0) both), sym (ap (λ p. p.1.sent_local) both) ∙ same)
      ]

-- The states of a peer after callbacks that raise nothing, with all that its user has been told.
-- Every message but a request has the info.
pub data History {Info : Type 0} (proc_id proc_count fanout : ℕ)
    : StoppingPeer Info → List (Message (Option Info)) → Type 0 where
  start : History proc_id proc_count fanout (init proc_id proc_count fanout) []
  local_message :
      (self self' : StoppingPeer Info) (told : List (Message (Option Info))) (now draw : ℕ)
      → (msg : Message (Option Info)) (info : Info) (ctx : Ctx Info) → msg.body ≡ some info
      → History proc_id proc_count fanout self told
      → on_local_message draw self msg (fresh now) ≡ ok (self', ctx)
      → History proc_id proc_count fanout self' (told ++ ctx.sent_local)
  arrival :
      (self self' : StoppingPeer Info) (told : List (Message (Option Info))) (now draw : ℕ)
      → (msg : Message (Option Info)) (sender : String) (ctx : Ctx Info) → carries msg ≡ true
      → History proc_id proc_count fanout self told
      → on_message draw self msg sender (fresh now) ≡ ok (self', ctx)
      → History proc_id proc_count fanout self' (told ++ ctx.sent_local)
  timer :
      (self self' : StoppingPeer Info) (told : List (Message (Option Info))) (now : ℕ)
      → (drawn : List ℕ) (name : String) (ctx : Ctx Info)
      → History proc_id proc_count fanout self told
      → on_timer drawn self name (fresh now) ≡ ok (self', ctx)
      → History proc_id proc_count fanout self' (told ++ ctx.sent_local)

module _ {Info : Type 0} (proc_id proc_count fanout : ℕ) where
  Returns-Fits :
      (prior : List (Message (Option Info))) (self : StoppingPeer Info) (ctx : Ctx Info)
      → (result : Result (StoppingPeer Info × Ctx Info)) → Returns prior result
      → result ≡ ok (self, ctx)
      → Fits self (prior ++ ctx.sent_local)
  Returns-Fits prior self ctx result (self1, ctx1, run, fits) e =
      subst (λ p. Fits p.0 (prior ++ p.1.sent_local)) (ok-injective (sym run ∙ e)) fits

  Fits-fresh :
      (self : StoppingPeer Info) (told : List (Message (Option Info)))
      → Fits self told
      → Fits self (told ++ [])
  Fits-fresh self told fits = rw append-nil fits

  History-Fits :
      (self : StoppingPeer Info) (told : List (Message (Option Info)))
      → History proc_id proc_count fanout self told
      → Fits self told
  unfolding count_type Gossip.init
  History-Fits _ _ start = (omega arith, omega arith)
  History-Fits self _ (local_message before _ told now draw msg info ctx news h run) =
      Returns-Fits told self ctx _
        (on_local_message-Returns told before (fresh now)
          (Fits-fresh before told (History-Fits before told h)) draw msg info news)
        run
  History-Fits self _ (arrival before _ told now draw msg sender ctx has_info h run) =
      Returns-Fits told self ctx _
        (on_message-Returns told before (fresh now)
          (Fits-fresh before told (History-Fits before told h)) draw msg sender has_info)
        run
  History-Fits self _ (timer before _ told now drawn name ctx h run) =
      let (same, silent) = on_timer-keeps drawn before self name (fresh now) ctx run in
      rw (same, silent) (Fits-fresh before told (History-Fits before told h))

  -- In every history of a peer, its user has been told DELIVER at most once and STOPPED at most
  -- once, however often the info comes and the user broadcasts.
  pub told_once :
      (self : StoppingPeer Info) (told : List (Message (Option Info)))
      → History proc_id proc_count fanout self told
      → (count_type "DELIVER" told ≤ 1) × (count_type "STOPPED" told ≤ 1)
  told_once self told h =
      let (delivered, stopped) = History-Fits self told h in
      (omega (arith, delivered), omega (arith, stopped))
