-- ===== src/Prelude/Xor.antt =====
-- Exclusive or of natural numbers: the laws of a group in which every element is its own inverse.
use Prim.Native.Nat.{
  ℕ, zero, suc, ◌+◌, ◌*◌, ◌/◌, ◌%◌, ◌≤◌, ◌<◌, bit_xor, digits, differ, bit_xor-bitwise,
}
use mathlib.Core.Path.{◌≡◌, refl, ◌∙◌}
use native.Mathlib.Omega.{arith}
use native.Mathlib.Nat.{le_refl}

abbrev rest_of : ℕ → ℕ
rest_of b = b

digits-fuel :
    (n m a b : ℕ) → a ≤ n → a ≤ m → digits rest_of differ n a b ≡ digits rest_of differ m a b
digits-fuel zero zero a b p q = refl
digits-fuel zero (suc m) zero b p q = refl
digits-fuel zero (suc m) (suc a) b p q = absurd (omega arith)
digits-fuel (suc n) zero zero b p q = refl
digits-fuel (suc n) zero (suc a) b p q = absurd (omega arith)
digits-fuel (suc n) (suc m) zero b p q = refl
digits-fuel (suc n) (suc m) (suc a) b p q =
    omega (arith, digits-fuel n m (suc a / 2) (b / 2) (omega arith) (omega arith))

pub zero-xor : (b : ℕ) → bit_xor 0 b ≡ b
zero-xor b = bit_xor-bitwise 0 b

-- The lowest digit, and the others.
pub xor_step : (a b : ℕ) → bit_xor a b ≡ bit_xor (a / 2) (b / 2) * 2 + differ (a % 2) (b % 2)
xor_step zero b = omega (arith, zero-xor b, zero-xor (b / 2))
xor_step (suc a) b = omega (
  arith,
  bit_xor-bitwise (suc a) b,
  bit_xor-bitwise (suc a / 2) (b / 2),
  digits-fuel a (suc a / 2) (suc a / 2) (b / 2) (omega arith) (omega arith),
)

differ_bits : (x y : ℕ) → x < 2 → y < 2 → (differ x y < 2) × (differ x y ≡ differ y x)
differ_bits zero zero p q = (omega arith, refl)
differ_bits zero (suc zero) p q = (omega arith, refl)
differ_bits zero (suc (suc y)) p q = absurd (omega arith)
differ_bits (suc zero) zero p q = (omega arith, refl)
differ_bits (suc zero) (suc zero) p q = (omega arith, refl)
differ_bits (suc zero) (suc (suc y)) p q = absurd (omega arith)
differ_bits (suc (suc x)) y p q = absurd (omega arith)

differ_self : (x : ℕ) → differ x x ≡ 0
differ_self zero = refl
differ_self (suc x) = differ_self x

differ_zero : (x : ℕ) → differ x 0 ≡ x
differ_zero zero = refl
differ_zero (suc x) = refl

differ_assoc : (x y z : ℕ) → x < 2 → y < 2 → z < 2 → differ (differ x y) z ≡ differ x (differ y z)
differ_assoc zero y z p q r = refl
differ_assoc (suc zero) zero z p q r = refl
differ_assoc (suc zero) (suc zero) zero p q r = refl
differ_assoc (suc zero) (suc zero) (suc zero) p q r = refl
differ_assoc (suc zero) (suc zero) (suc (suc z)) p q r = absurd (omega arith)
differ_assoc (suc zero) (suc (suc y)) z p q r = absurd (omega arith)
differ_assoc (suc (suc x)) y z p q r = absurd (omega arith)

comm_upto : (n a b : ℕ) → a ≤ n → b ≤ n → bit_xor a b ≡ bit_xor b a
comm_upto n zero zero p q = refl
comm_upto zero (suc a) b p q = absurd (omega arith)
comm_upto zero zero (suc b) p q = absurd (omega arith)
comm_upto (suc n) a b p q = omega (
  arith,
  xor_step a b,
  xor_step b a,
  differ_bits (a % 2) (b % 2) (omega arith) (omega arith),
  comm_upto n (a / 2) (b / 2) (omega arith) (omega arith),
)

pub xor_comm : (a b : ℕ) → bit_xor a b ≡ bit_xor b a
xor_comm a b = comm_upto (a + b) a b (omega arith) (omega arith)

self_upto : (n a : ℕ) → a ≤ n → bit_xor a a ≡ 0
self_upto n zero p = refl
self_upto zero (suc a) p = absurd (omega arith)
self_upto (suc n) (suc a) p = omega (
  arith,
  xor_step (suc a) (suc a),
  differ_self (suc a % 2),
  self_upto n (suc a / 2) (omega arith),
)

pub xor_self : (a : ℕ) → bit_xor a a ≡ 0
xor_self a = self_upto a a (le_refl a)

pub xor-zero : (a : ℕ) → bit_xor a 0 ≡ a
xor-zero a = omega (arith, xor_comm a 0, zero-xor a)

xor_halves :
    (a b : ℕ)
    → (bit_xor a b / 2 ≡ bit_xor (a / 2) (b / 2)) × (bit_xor a b % 2 ≡ differ (a % 2) (b % 2))
xor_halves a b =
    let below = differ_bits (a % 2) (b % 2) (omega arith) (omega arith) in
    (omega (arith, xor_step a b, below), omega (arith, xor_step a b, below))

xor_step_left :
    (a b c : ℕ)
    → bit_xor (bit_xor a b) c
      ≡ bit_xor (bit_xor (a / 2) (b / 2)) (c / 2) * 2 + differ (differ (a % 2) (b % 2)) (c % 2)
xor_step_left a b c = xor_step (bit_xor a b) c ∙ rw ((xor_halves a b).0, (xor_halves a b).1) refl

xor_step_right :
    (a b c : ℕ)
    → bit_xor a (bit_xor b c)
      ≡ bit_xor (a / 2) (bit_xor (b / 2) (c / 2)) * 2 + differ (a % 2) (differ (b % 2) (c % 2))
xor_step_right a b c = xor_step a (bit_xor b c) ∙ rw ((xor_halves b c).0, (xor_halves b c).1) refl

assoc_upto :
    (n a b c : ℕ) → a ≤ n → b ≤ n → c ≤ n → bit_xor (bit_xor a b) c ≡ bit_xor a (bit_xor b c)
assoc_upto n zero b c p q r = rw (zero-xor b, zero-xor (bit_xor b c)) refl
assoc_upto zero (suc a) b c p q r = absurd (omega arith)
assoc_upto (suc n) (suc a) b c p q r = omega (
  arith,
  xor_step_left (suc a) b c,
  xor_step_right (suc a) b c,
  differ_assoc (suc a % 2) (b % 2) (c % 2) (omega arith) (omega arith) (omega arith),
  assoc_upto n (suc a / 2) (b / 2) (c / 2) (omega arith) (omega arith) (omega arith),
)

pub xor_assoc : (a b c : ℕ) → bit_xor (bit_xor a b) c ≡ bit_xor a (bit_xor b c)
xor_assoc a b c = assoc_upto (a + b + c) a b c (omega arith) (omega arith) (omega arith)
