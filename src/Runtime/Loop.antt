-- ===== src/Runtime/Loop.antt =====
-- A `while` loop whose body may raise, with fuel, and its rule for total correctness.
use distsys_course_work.Prelude.{
  ℕ, zero, suc, ◌≤◌, ◌<◌, ◌≡◌, refl, Bool, true, false, arith, Bool-cases, inl, inr,
}
use distsys_course_work.Runtime.{Result, ok, ◌>>=◌}

-- Without fuel the loop just stops; `while_ok` shows when that does not happen.
unfoldable pub while {ℓ} : {S : Type ℓ} → ℕ → (S → Bool) → (S → Result S) → S → Result S
while zero cond step now = ok now
while (suc rounds) cond step now = elim (cond now) [
  | false ↦ ok now
  | true ↦ step now >>= while rounds cond step
]

-- With a measure that falls and an invariant that the body keeps, and the fuel at least the
-- measure, the loop raises nothing, ends by its own test, and the invariant holds.
pub while_ok {ℓ κ} :
    {S : Type ℓ} (P : S → Type κ) (measure : S → ℕ) (test : S → Bool) (body : S → Result S)
    → ((s : S)
        → P s
        → test s ≡ true
        → (s' : S) × (body s ≡ ok s') × P s' × (measure s' < measure s))
    → (fuel : ℕ) (s : S) → measure s ≤ fuel
    → P s
    → (s' : S) × (while fuel test body s ≡ ok s') × P s' × (test s' ≡ false)
unfolding while
while_ok P measure test body keep zero s m h = elim (Bool-cases (test s)) [
  | inl more ↦ let (s', _, _, less) = keep s h more in absurd (omega arith)
  | inr done ↦ (s, refl, h, done)
]
while_ok P measure test body keep (suc fuel) s m h = elim (Bool-cases (test s)) [
  | inl more ↦
      let (s1, run, keeps, less) = keep s h more in
      let (s', rest, p, done) = while_ok P measure test body keep fuel s1 (omega arith) keeps in
      (s', rw (more, while, run) rest, p, done)
  | inr done ↦ (s, rw (done, while), h, done)
]
