-- ===== src/Sharding/Deque.antt =====
-- Python's `deque` as a list: indices from both ends, `insert`, `remove`.
use mathlib.Core.Bool.{Bool}
use distsys_course_work.Prelude.{
  ℕ, zero, suc, ◌-◌, Option, none, some, List, [], ◌∷◌, length, get_elem?, Eq, ◌==◌, leb,
  if◌then◌else◌,
}
use distsys_course_work.Runtime.{Result, ok, raise, Error, index_error, value_error, ◌>>=◌}

-- An index: `negsuc n` is -(n + 1).
pub data ℤ : Type 0 where
  pos : ℕ → ℤ
  negsuc : ℕ → ℤ

abbrev pub add_one : ℤ → ℤ
add_one (pos n) = pos (suc n)
add_one (negsuc zero) = pos zero
add_one (negsuc (suc n)) = negsuc n

module _ {ℓ} {A : Type ℓ} where
  abbrev pub or_raise : Error → Option A → Result A
  or_raise e none = raise e
  or_raise e (some a) = ok a

  -- d[i]
  abbrev pub at : List A → ℤ → Result A
  at d (pos i) = or_raise index_error (get_elem? d i)
  at d (negsuc i) =
      if leb (suc i) (length d)
      then or_raise index_error (get_elem? d (length d - suc i))
      else raise index_error

  -- d.insert(i, a)
  abbrev pub insert_from_left : ℕ → A → List A → List A
  insert_from_left zero a d = a ∷ d
  insert_from_left (suc i) a [] = a ∷ []
  insert_from_left (suc i) a (x ∷ d) = x ∷ insert_from_left i a d

  abbrev pub insert_at : ℤ → A → List A → List A
  insert_at (pos i) a d = insert_from_left i a d
  insert_at (negsuc i) a d = insert_from_left (length d - suc i) a d

  -- d.remove(a): the first element that is equal goes.
  abbrev pub remove_first : ⦃e : Eq A⦄ → A → List A → Result (List A)
  remove_first a [] = raise value_error
  remove_first a (x ∷ d) = elim (x == a) [
    | Bool.true ↦ ok d
    | Bool.false ↦ remove_first a d >>= λ rest. ok (x ∷ rest)
  ]
