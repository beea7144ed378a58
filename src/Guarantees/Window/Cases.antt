-- ===== src/Guarantees/Window/Cases.antt =====
-- What a successful callback of the sender did: its new state, and what it sent and set.
use Prim.Native.String.{count}
use distsys_course_work.Prelude.{
  ℕ, ◌+◌, ◌≤◌, ◌≡◌, String, none, some, [], ◌∷◌, ◌++◌, ◌⊎◌, inl, inr, arith, nat_eq, Option-cases,
  Bool-cases, leb, Member, eq_of_Member-one, not-Member-nil, subst, ap, sym, map,
}
use distsys_course_work.Prelude.Dict
use distsys_course_work.Runtime.{Message, Context, ok, set, fresh, name_limit}
use distsys_course_work.Guarantees.{Data}
use distsys_course_work.Guarantees.Window.{Sender, send_in_window, on_local_message, on_timer}

module _ {Text : Type 0} (limit delay : ℕ) where
  -- Either nothing was sent, or one message within the window.
  abbrev pub SentInWindow :
      Sender Text → ℕ → Text → Context (Data Text) Text ℕ → Context (Data Text) Text ℕ → Type 0
  SentInWindow s order text ctx ctx' =
      ((type : String) × (order ≤ s.order_lower_bound + limit)
        × (count type ≤ name_limit)
        × (ctx'.sent
            ≡ ctx.sent
              ++ (record { type = type; body = record { order = order; text = text } }, s.receiver)
                ∷ []))
      ⊎ (ctx'.sent ≡ ctx.sent)

  send_in_window_cases :
      (s : Sender Text) (type : String) (order : ℕ) (text : Text)
      (ctx ctx' : Context (Data Text) Text ℕ)
      → send_in_window limit delay s type order text ctx ≡ ok ctx'
      → SentInWindow s order text ctx ctx' × (ctx'.timer_actions ≡ ctx.timer_actions)
  unfolding send_in_window
  send_in_window_cases s type order text ctx ctx' h =
      elim (Bool-cases (leb order (s.order_lower_bound + limit))) [
        | inl inside ↦ (inl (type, ground arith, ground arith, ground arith), ground arith)
        | inr outside ↦ (inr (ground arith), ground arith)
      ]

  pub on_local_message_cases :
      (s s' : Sender Text) (msg : Message Text) (ctx ctx' : Context (Data Text) Text ℕ)
      → on_local_message limit delay s msg ctx ≡ ok (s', ctx')
      → (s' ≡ record s {
        message_store = Dict.insert s.order msg.body s.message_store;
        order = s.order + 1;
      })
        × SentInWindow s s.order msg.body ctx ctx'
        × (ctx'.timer_actions ≡ ctx.timer_actions ++ set s.order delay ∷ [])
  unfolding on_local_message
  on_local_message_cases s s' msg ctx ctx' h =
      elim (Bool-cases (leb s.order (s.order_lower_bound + limit))) [
        | inl inside ↦
            (ground arith, inl (msg.type, ground arith, ground arith, ground arith), ground arith)
        | inr outside ↦ (ground arith, inr (ground arith), ground arith)
      ]

  -- A timer of a message that is still stored repeats it, if the window allows, and starts again.
  pub on_timer_cases :
      (s s' : Sender Text) (order : ℕ) (ctx ctx' : Context (Data Text) Text ℕ)
      → on_timer limit delay s order ctx ≡ ok (s', ctx')
      → (s' ≡ s)
        × (((text : Text) × (Dict.lookup order s.message_store ≡ some text)
              × SentInWindow s order text ctx ctx'
              × (ctx'.timer_actions ≡ ctx.timer_actions ++ set order delay ∷ []))
            ⊎ ((Dict.lookup order s.message_store ≡ none) × (ctx' ≡ ctx)))
  unfolding on_timer
  on_timer_cases s s' order ctx ctx' h = elim (Option-cases (Dict.lookup order s.message_store)) [
    | inl gone ↦ (ground arith, inr (gone, ground arith))
    | inr (text, stored) ↦ elim (Bool-cases (leb order (s.order_lower_bound + limit))) [
      | inl inside ↦ (
        ground arith,
        inl (text, stored, inl ("MESSAGE", ground arith, omega arith, ground arith), ground arith),
      )
      | inr outside ↦ (ground arith, inl (text, stored, inr (ground arith), ground arith))
    ]
  ]

  -- So whatever a callback put on the wire is the one message.
  pub sent-Member :
      (s : Sender Text) (order now : ℕ) (text : Text) (ctx' : Context (Data Text) Text ℕ)
      (m : Message (Data Text))
      → SentInWindow s order text (fresh now) ctx'
      → Member m (map (λ p. p.0) ctx'.sent)
      → (m.body.order ≡ order)
        × (m.body.text ≡ text)
        × (order ≤ s.order_lower_bound + limit)
        × (count m.type ≤ name_limit)
  sent-Member s order now text ctx' m (inl (type, inside, short, e)) h =
      let one = eq_of_Member-one m _ (subst (λ l. Member m (map (λ p. p.0) l)) e h) in
      (
        ap (λ x. x.body.order) one,
        ap (λ x. x.body.text) one,
        inside,
        subst (λ x. count x.type ≤ name_limit) (sym one) short,
      )
  sent-Member s order now text ctx' m (inr e) h =
      absurd (not-Member-nil m (subst (λ l. Member m (map (λ p. p.0) l)) e h))
