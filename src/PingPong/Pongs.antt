-- ===== src/PingPong/Pongs.antt =====
-- Histories of the client of impl_retry.py: its user gets at most one message for each ping.
use Prim.Native.String.{count}
use distsys_course_work.Prelude.{
  ℕ, ◌+◌, ◌≤◌, ◌≡◌, refl, String, false, none, some, List, [], ◌∷◌, ◌++◌, ◌==◌, text_eq,
  if◌then◌else◌, ltb, length, length-append, arith, Bool-cases, Option-cases, inl, inr, ap, sym,
  subst, ◌∙◌,
}
use distsys_course_work.Runtime.{
  Message, ok, raise, ok-injective, ◌>>=◌, fresh, name_limit, value_error, send, send_local,
  set_timer, cancel_timer, set,
}
use distsys_course_work.PingPong.Basic.{Ctx}
use distsys_course_work.PingPong.Retry.{RetryClient, init, on_local_message, on_message, on_timer}

module _ {Value : Type 0} where
  abbrev open_pings : RetryClient Value → ℕ
  open_pings self = elim self.ping [ none ↦ 0 | some _ ↦ 1 ]

  -- A pong is told only when a ping is open, and closes it.
  on_message-closes :
      (self self' : RetryClient Value) (msg : Message Value) (sender : String) (now : ℕ)
      → (ctx : Ctx Value) → on_message self msg sender (fresh now) ≡ ok (self', ctx)
      → length ctx.sent_local + open_pings self' ≤ open_pings self
  unfolding on_message send_local cancel_timer
  on_message-closes self self' msg sender now ctx e = elim (Bool-cases (msg.type == "PONG")) [
    | inr other ↦
        let kept : on_message self msg sender (fresh now) ≡ ok (self, fresh now) =
          simp (on_message, other) refl in
        let both = ok-injective (sym kept ∙ e) in
        subst (λ p. length p.1.sent_local + open_pings p.0 ≤ open_pings self) both (omega arith)
    | inl pong ↦ elim (Option-cases self.ping) [
      | inl closed ↦
          let kept : on_message self msg sender (fresh now) ≡ ok (self, fresh now) =
            simp (on_message, pong, closed) refl in
          let both = ok-injective (sym kept ∙ e) in
          subst (λ p. length p.1.sent_local + open_pings p.0 ≤ open_pings self) both (omega arith)
      | inr (ping, waits) ↦
          let short : ltb name_limit (count msg.type) ≡ false =
            ap (λ t. ltb name_limit (count t)) ((text_eq.same_iff msg.type "PONG").0 pong) in
          let done : Ctx Value = record (cancel_timer "check_pong" (fresh now)) {
            sent_local = msg ∷ [];
          } in
          let tells : on_message self msg sender (fresh now)
              ≡ ok (record self { ping = none }, done) =
            simp (on_message, pong, waits, short, if◌then◌else◌, ◌>>=◌) refl in
          let both = ok-injective (sym tells ∙ e) in
          subst (λ p. length p.1.sent_local + open_pings p.0 ≤ open_pings self) both
            (ground (arith, waits))
    ]
  ]

  -- A ping of the user opens one, and tells the user nothing.
  on_local_message-opens :
      (self self' : RetryClient Value) (msg : Message Value) (now : ℕ) (ctx : Ctx Value)
      → on_local_message self msg (fresh now) ≡ ok (self', ctx)
      → length ctx.sent_local + open_pings self'
        ≤ open_pings self + (if msg.type == "PING" then 1 else 0)
  unfolding on_local_message send set_timer
  on_local_message-opens self self' msg now ctx e = elim (Bool-cases (msg.type == "PING")) [
    | inr other ↦
        let kept : on_local_message self msg (fresh now) ≡ ok (self, fresh now) =
          simp (on_local_message, other) refl in
        let both = ok-injective (sym kept ∙ e) in
        subst
          (λ p.
            length p.1.sent_local + open_pings p.0
            ≤ open_pings self + (if msg.type == "PING" then 1 else 0))
          both (ground (arith, other))
    | inl ping ↦
        let short : ltb name_limit (count msg.type) ≡ false =
          ap (λ t. ltb name_limit (count t)) ((text_eq.same_iff msg.type "PING").0 ping) in
        let done : Ctx Value = record {
          time = now;
          sent = (msg, self.server_id) ∷ [];
          sent_local = [];
          timer_actions = set "check_pong" 3 ∷ [];
        } in
        let opens : on_local_message self msg (fresh now)
            ≡ ok (record self { ping = some msg }, done) =
          simp (on_local_message, ping, short, if◌then◌else◌, ◌>>=◌) refl in
        let both = ok-injective (sym opens ∙ e) in
        subst
          (λ p.
            length p.1.sent_local + open_pings p.0
            ≤ open_pings self + (if msg.type == "PING" then 1 else 0))
          both (ground (arith, ping))
  ]

  -- A timer tells the user nothing.
  on_timer-silent :
      (self self' : RetryClient Value) (name : String) (now : ℕ) (ctx : Ctx Value)
      → on_timer self name (fresh now) ≡ ok (self', ctx)
      → length ctx.sent_local + open_pings self' ≤ open_pings self
  unfolding on_timer send set_timer
  on_timer-silent self self' name now ctx e = elim (Bool-cases (name == "check_pong")) [
    | inr other ↦
        let kept : on_timer self name (fresh now) ≡ ok (self, fresh now) =
          simp (on_timer, other) refl in
        let both = ok-injective (sym kept ∙ e) in
        subst (λ p. length p.1.sent_local + open_pings p.0 ≤ open_pings self) both (omega arith)
    | inl mine ↦ elim (Option-cases self.ping) [
      | inl closed ↦
          let kept : on_timer self name (fresh now) ≡ ok (self, fresh now) =
            simp (on_timer, mine, closed) refl in
          let both = ok-injective (sym kept ∙ e) in
          subst (λ p. length p.1.sent_local + open_pings p.0 ≤ open_pings self) both (omega arith)
      | inr (ping, waits) ↦ elim (Bool-cases (ltb name_limit (count ping.type))) [
        | inl long ↦
            let raises : on_timer self name (fresh now) ≡ raise value_error =
              simp (on_timer, mine, waits, long, if◌then◌else◌, ◌>>=◌) refl in
            absurd (cc (sym raises ∙ e))
        | inr short ↦
            let done : Ctx Value = record {
              time = now;
              sent = (ping, self.server_id) ∷ [];
              sent_local = [];
              timer_actions = set "check_pong" 3 ∷ [];
            } in
            let again : on_timer self name (fresh now) ≡ ok (self, done) =
              simp (on_timer, mine, waits, short, if◌then◌else◌, ◌>>=◌) refl in
            let both = ok-injective (sym again ∙ e) in
            subst (λ p. length p.1.sent_local + open_pings p.0 ≤ open_pings self) both (omega arith)
      ]
    ]
  ]

-- The states of a client after callbacks that raise nothing, with all that its user has been told
-- and the number of pings that the user has submitted.
pub data History {Value : Type 0} (proc_id server_id : String)
    : RetryClient Value → List (Message Value) → ℕ → Type 0 where
  start : History proc_id server_id (init proc_id server_id) [] 0
  local_message :
      (self self' : RetryClient Value) (told : List (Message Value)) (pings now : ℕ)
      → (msg : Message Value) (ctx : Ctx Value) → History proc_id server_id self told pings
      → on_local_message self msg (fresh now) ≡ ok (self', ctx)
      → History proc_id server_id self'
          (told ++ ctx.sent_local)
          (pings + (if msg.type == "PING" then 1 else 0))
  arrival :
      (self self' : RetryClient Value) (told : List (Message Value)) (pings now : ℕ)
      → (msg : Message Value) (sender : String) (ctx : Ctx Value)
      → History proc_id server_id self told pings
      → on_message self msg sender (fresh now) ≡ ok (self', ctx)
      → History proc_id server_id self' (told ++ ctx.sent_local) pings
  timer :
      (self self' : RetryClient Value) (told : List (Message Value)) (pings now : ℕ)
      → (name : String) (ctx : Ctx Value) → History proc_id server_id self told pings
      → on_timer self name (fresh now) ≡ ok (self', ctx)
      → History proc_id server_id self' (told ++ ctx.sent_local) pings

module _ {Value : Type 0} (proc_id server_id : String) where
  told_and_open :
      (self : RetryClient Value) (told : List (Message Value)) (pings : ℕ)
      → History proc_id server_id self told pings
      → length told + open_pings self ≤ pings
  told_and_open _ _ _ start = omega arith
  told_and_open self _ _ (local_message before _ told pings now msg ctx h run) = omega (
    arith,
    length-append told ctx.sent_local,
    told_and_open before told pings h,
    on_local_message-opens before self msg now ctx run,
  )
  told_and_open self _ pings (arrival before _ told _ now msg sender ctx h run) = omega (
    arith,
    length-append told ctx.sent_local,
    told_and_open before told pings h,
    on_message-closes before self msg sender now ctx run,
  )
  told_and_open self _ pings (timer before _ told _ now name ctx h run) = omega (
    arith,
    length-append told ctx.sent_local,
    told_and_open before told pings h,
    on_timer-silent before self name now ctx run,
  )

  -- In every history of the client of impl_retry.py, its user has been told at most one message for
  -- each ping that it submitted, however often pings are sent again and pongs come.
  pub one_pong_per_ping :
      (self : RetryClient Value) (told : List (Message Value)) (pings : ℕ)
      → History proc_id server_id self told pings
      → length told ≤ pings
  one_pong_per_ping self told pings h = omega (arith, told_and_open self told pings h)
