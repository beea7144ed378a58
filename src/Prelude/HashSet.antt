-- ===== src/Prelude/HashSet.antt =====
-- Python's `set`: a list of its elements, each once.
use Prim.Native.Nat.{suc, ◌≤◌}
use mathlib.Core.Path.{◌≡◌}
use mathlib.Core.Bool.{Bool, true, false, ◌||◌}
use mathlib.Core.List.{List, [], ◌∷◌, ◌++◌}
use native.Mathlib.Omega.{arith}
use distsys_course_work.Prelude.Tests.{Eq, ◌==◌, if◌then◌else◌}
use distsys_course_work.Prelude.Lists.{length}

module _ {ℓ} {A : Type ℓ} ⦃e : Eq A⦄ where
  -- x in s
  unfoldable pub contains : A → List A → Bool
  contains x [] = false
  contains x (y ∷ s) = y == x || contains x s

  -- s.add(x)
  unfoldable pub add : A → List A → List A
  unfolding contains
  add x s = if contains x s then s else s ++ x ∷ []

  -- s.discard(x)
  unfoldable pub discard : A → List A → List A
  discard x [] = []
  discard x (y ∷ s) = let rest = discard x s in if y == x then rest else y ∷ rest

  pub contains-append :
      (x y : A) (s : List A) → contains y (s ++ x ∷ []) ≡ (if x == y then true else contains y s)
  unfolding contains
  contains-append x y [] = ground arith
  contains-append x y (z ∷ s) = ground (arith, contains-append x y s)

  pub contains-add :
      (x y : A) (s : List A) → contains y (add x s) ≡ (if x == y then true else contains y s)
  unfolding add
  contains-add x y s = ground (arith, contains-append x y s, e.same_iff x y)

  pub contains-discard :
      (x y : A) (s : List A) → contains y (discard x s) ≡ (if x == y then false else contains y s)
  unfolding contains discard
  contains-discard x y [] = ground arith
  contains-discard x y (z ∷ s) =
      ground (arith, contains-discard x y s, e.same_iff z x, e.same_iff z y, e.same_iff x y)

  pub length-discard-le : (x : A) (s : List A) → length (discard x s) ≤ length s
  unfolding discard
  length-discard-le x [] = omega arith
  length-discard-le x (z ∷ s) = ground (arith, length-discard-le x s)

  -- Removing an element that is there makes the set smaller.
  pub length-discard-lt :
      (x : A) (s : List A) → contains x s ≡ true → suc (length (discard x s)) ≤ length s
  unfolding contains discard
  length-discard-lt x [] h = ground arith
  length-discard-lt x (z ∷ s) h = ground (arith, length-discard-lt x s, length-discard-le x s)
