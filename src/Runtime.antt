-- ===== src/Runtime.antt =====
-- homework/dslab/dslabmp.py: messages, the context of a callback, and the interface of a process.
-- A message's data is typed: `D` is the record of its keys. The checks of `isinstance` hold by
-- typing. An exception is an error of `Result`; it ends the callback.
pub mod Loop
pub mod Items
use Prim.Native.String.{count}
use native.Mathlib.Nat.{pow-suc, pow-zero}
use distsys_course_work.Prelude.{
  ◌≡◌, refl, ◌⊎◌, inl, inr, ℕ, zero, suc, ◌/◌, ◌^◌, ◌≤◌, ◌<◌, String, List, [], ◌∷◌, ◌++◌, arith,
  ltb, if◌then◌else◌,
}

pub data Error : Type 0 where
  value_error key_error index_error recursion_error : Error
  type_error attribute_error zero_division_error connection_error : Error

pub data Result {ℓ} (A : Type ℓ) : Type ℓ where
  ok : A → Result A
  raise : Error → Result A

infixl 5 ◌>>=◌
abbrev pub ◌>>=◌ {ℓ κ} : {A : Type ℓ} {B : Type κ} → Result A → (A → Result B) → Result B
ok a >>= f = f a
raise e >>= f = raise e

pub Result-cases {ℓ} :
    {A : Type ℓ} (r : Result A) → ((a : A) × (r ≡ ok a)) ⊎ ((e : Error) × (r ≡ raise e))
Result-cases (ok a) = inl (a, refl)
Result-cases (raise e) = inr (e, refl)

pub ok-injective {ℓ} : {A : Type ℓ} {a b : A} → ok a ≡ ok b → a ≡ b
ok-injective e = cc

pub record Message (D : Type 0) : Type 0 where
  pub type : String
  pub body : D

-- What can name a timer: `len` is the length of the name as a text.
pub record TimerName (T : Type 0) : Type 0 where
  pub len : T → ℕ

-- `(name, delay, False)`, `(name, delay, True)` and `(name, -1, False)` of `_timer_actions`.
pub data TimerAction (T : Type 0) : Type 0 where
  set : T → ℕ → TimerAction T
  set_once : T → ℕ → TimerAction T
  cancel : T → TimerAction T

pub record Context (O D T : Type 0) : Type 0 where
  pub time : ℕ
  pub sent : List (Message O × String)
  pub sent_local : List (Message D)
  pub timer_actions : List (TimerAction T)

abbrev pub name_limit : ℕ
name_limit = 50

module _ {O D T : Type 0} where
  abbrev pub fresh : ℕ → Context O D T
  fresh time = record { time = time; sent = []; sent_local = []; timer_actions = [] }

  unfoldable pub send : Message O → String → Context O D T → Result (Context O D T)
  send msg to ctx =
      if ltb name_limit (count msg.type)
      then raise value_error
      else ok (record ctx { sent = ctx.sent ++ (msg, to) ∷ [] })

  unfoldable pub send_local : Message D → Context O D T → Result (Context O D T)
  send_local msg ctx =
      if ltb name_limit (count msg.type)
      then raise value_error
      else ok (record ctx { sent_local = ctx.sent_local ++ msg ∷ [] })

  -- A delay is a number that is not negative, so that check holds by typing.
  unfoldable pub set_timer : ⦃n : TimerName T⦄ → T → ℕ → Context O D T → Result (Context O D T)
  set_timer ⦃n⦄ name delay ctx =
      if ltb name_limit (n.len name)
      then raise value_error
      else ok (record ctx { timer_actions = ctx.timer_actions ++ set name delay ∷ [] })

  unfoldable pub set_timer_once : ⦃n : TimerName T⦄ → T → ℕ → Context O D T → Result (Context O D T)
  set_timer_once ⦃n⦄ name delay ctx =
      if ltb name_limit (n.len name)
      then raise value_error
      else ok (record ctx { timer_actions = ctx.timer_actions ++ set_once name delay ∷ [] })

  unfoldable pub cancel_timer : T → Context O D T → Context O D T
  cancel_timer name ctx = record ctx { timer_actions = ctx.timer_actions ++ cancel name ∷ [] }

-- `str(n)` names a timer: the number of its decimal digits. The fuel `n + 1` is enough.
digits_from : ℕ → ℕ → ℕ
digits_from zero n = 0
digits_from (suc f) n = let rest = digits_from f (n / 10) in if ltb n 10 then 1 else suc rest

unfoldable pub digits : ℕ → ℕ
unfolding digits_from
digits n = digits_from (suc n) n

instance abbrev pub counter_name : TimerName ℕ
counter_name = record { len = digits }

instance abbrev pub text_name : TimerName String
text_name = record { len = count }

digits_from-le : (f n k : ℕ) → n < 10 ^ suc k → digits_from f n ≤ suc k
unfolding digits_from
digits_from-le zero n k h = omega arith
digits_from-le (suc f) n zero h = ground (arith, pow-suc 10 0, pow-zero 10)
digits_from-le (suc f) n (suc k) h = ground (arith, below, digits_from-le f (n / 10) k below)
  where
    below : n / 10 < 10 ^ suc k
    below = omega (arith, pow-suc 10 (suc k))

-- A counter of at most fifty digits can name a timer.
pub digits-le : (n : ℕ) → n < 10 ^ 50 → digits n ≤ name_limit
unfolding digits
digits-le n h = digits_from-le (suc n) n 49 h

-- A process: its three callbacks, over its state `S`, the local messages `L`, the messages in `I`
-- and out `O`, what it tells its user `D`, and its timers `T`.
pub record Process (S L I O D T : Type 0) : Type 0 where
  pub on_local_message : S → Message L → Context O D T → Result (S × Context O D T)
  pub on_message : S → Message I → String → Context O D T → Result (S × Context O D T)
  pub on_timer : S → T → Context O D T → Result (S × Context O D T)
