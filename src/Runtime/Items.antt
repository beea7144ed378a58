-- ===== src/Runtime/Items.antt =====
-- The element of a Python list at an index that is not negative, and its assignment.
use distsys_course_work.Prelude.{ℕ, zero, suc, List, [], ◌∷◌}
use distsys_course_work.Runtime.{Result, ok, raise, index_error, ◌>>=◌}

module _ {ℓ} {A : Type ℓ} where
  -- xs[i]
  abbrev pub item : List A → ℕ → Result A
  item [] i = raise index_error
  item (x ∷ xs) zero = ok x
  item (x ∷ xs) (suc i) = item xs i

  -- xs[i] = a
  abbrev pub set_item : ℕ → A → List A → Result (List A)
  set_item i a [] = raise index_error
  set_item zero a (x ∷ xs) = ok (a ∷ xs)
  set_item (suc i) a (x ∷ xs) = set_item i a xs >>= λ rest. ok (x ∷ rest)
