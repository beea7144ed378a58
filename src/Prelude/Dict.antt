-- ===== src/Prelude/Dict.antt =====
-- Python's `dict`: the entries in the order in which their keys were first inserted.
use Prim.Native.Nat.{suc, ◌≤◌}
use mathlib.Core.Path.{◌≡◌, refl, ◌∙◌}
use mathlib.Core.Logic.{inl, inr}
use mathlib.Core.Bool.{Bool, true, false}
use mathlib.Core.List.{List, [], ◌∷◌}
use mathlib.Core.Option.{Option, none, some}
use native.Mathlib.Omega.{arith}
use distsys_course_work.Prelude.Tests.{Eq, Bool-cases, ◌==◌, if◌then◌else◌}
use distsys_course_work.Prelude.Lists.{length, All}

module _ {ℓ κ} {K : Type ℓ} {V : Type κ} ⦃e : Eq K⦄ where
  -- d.get(k)
  unfoldable pub lookup : K → List (K × V) → Option V
  lookup k [] = none
  lookup k ((j, v) ∷ d) = if j == k then some v else lookup k d

  -- k in d
  unfoldable pub has : K → List (K × V) → Bool
  has k [] = false
  has k ((j, v) ∷ d) = if j == k then true else has k d

  -- d[k] = v: a key that is there keeps its place, a new one goes to the end.
  unfoldable pub insert : K → V → List (K × V) → List (K × V)
  insert k v [] = (k, v) ∷ []
  insert k v ((j, w) ∷ d) = if j == k then (j, v) ∷ d else (j, w) ∷ insert k v d

  -- d.pop(k, None), as a change of the dict
  unfoldable pub remove : K → List (K × V) → List (K × V)
  remove k [] = []
  remove k ((j, w) ∷ d) = let rest = remove k d in if j == k then rest else (j, w) ∷ rest

  -- No key stands twice.
  abbrev pub IsDict : List (K × V) → Type 0
  IsDict [] = Unit
  IsDict ((k, v) ∷ d) = (has k d ≡ false) × IsDict d

  pub lookup-insert :
      (k j : K) (v : V) (d : List (K × V))
      → lookup j (insert k v d) ≡ (if k == j then some v else lookup j d)
  unfolding lookup insert
  lookup-insert k j v [] = refl
  lookup-insert k j v ((i, w) ∷ d) =
      ground (arith, e.same_iff k j, e.same_iff i k, e.same_iff i j, lookup-insert k j v d)

  pub lookup-remove :
      (k j : K) (d : List (K × V)) → lookup j (remove k d) ≡ (if k == j then none else lookup j d)
  unfolding lookup remove
  lookup-remove k j [] = ground arith
  lookup-remove k j ((i, w) ∷ d) =
      ground (arith, e.same_iff k j, e.same_iff i k, e.same_iff i j, lookup-remove k j d)

  pub has-lookup :
      (k : K) (d : List (K × V)) → has k d ≡ (elim (lookup k d) [ none ↦ false | some _ ↦ true ])
  unfolding lookup has
  has-lookup k [] = refl
  has-lookup k ((j, v) ∷ d) = ground (arith, has-lookup k d)

  pub length-remove-le : (k : K) (d : List (K × V)) → length (remove k d) ≤ length d
  unfolding remove
  length-remove-le k [] = omega arith
  length-remove-le k ((j, w) ∷ d) = ground (arith, length-remove-le k d)

  pub length-remove-lt :
      (k : K) (d : List (K × V)) (v : V)
      → lookup k d ≡ some v
      → suc (length (remove k d)) ≤ length d
  unfolding lookup remove
  length-remove-lt k [] v h = ground arith
  length-remove-lt k ((j, w) ∷ d) v h = ground (arith, length-remove-lt k d v, length-remove-le k d)

  pub has-insert :
      (k j : K) (v : V) (d : List (K × V))
      → has j (insert k v d) ≡ (if k == j then true else has j d)
  unfolding has insert
  has-insert k j v [] = refl
  has-insert k j v ((i, w) ∷ d) =
      ground (arith, e.same_iff k j, e.same_iff i k, e.same_iff i j, has-insert k j v d)

  pub has-remove :
      (k j : K) (d : List (K × V)) → has j (remove k d) ≡ (if k == j then false else has j d)
  unfolding has remove
  has-remove k j [] = ground arith
  has-remove k j ((i, w) ∷ d) =
      ground (arith, e.same_iff k j, e.same_iff i k, e.same_iff i j, has-remove k j d)

  pub insert-IsDict : (k : K) (v : V) (d : List (K × V)) → IsDict d → IsDict (insert k v d)
  unfolding insert has
  insert-IsDict k v [] dict = (refl, tt)
  insert-IsDict k v ((j, w) ∷ d) dict = elim (Bool-cases (j == k)) [
    | inl here ↦ rw (insert, here, if◌then◌else◌) dict
    | inr later ↦
        rw (insert, later, if◌then◌else◌)
          (
            has-insert k j v d ∙ ground (arith, dict.0, later, e.same_iff k j, e.same_iff j k),
            insert-IsDict k v d dict.1,
          )
  ]

  pub remove-IsDict : (k : K) (d : List (K × V)) → IsDict d → IsDict (remove k d)
  unfolding remove
  remove-IsDict k [] dict = tt
  remove-IsDict k ((j, w) ∷ d) dict = elim (Bool-cases (j == k)) [
    | inl here ↦ rw (here, if◌then◌else◌) (remove-IsDict k d dict.1)
    | inr other ↦
        rw (other, if◌then◌else◌)
          (has-remove k j d ∙ ground (arith, dict.0), remove-IsDict k d dict.1)
  ]

  -- What holds of all entries holds of those that are left, and of a new one.
  pub All-remove {μ} :
      (P : K × V → Type μ) (k : K) (d : List (K × V)) → All P d → All P (remove k d)
  unfolding remove
  All-remove P k [] h = tt
  All-remove P k ((j, w) ∷ d) h = elim (Bool-cases (j == k)) [
    | inl here ↦ rw (here, if◌then◌else◌) (All-remove P k d h.1)
    | inr other ↦ rw (other, if◌then◌else◌) (h.0, All-remove P k d h.1)
  ]

  pub All-insert {μ} :
      (P : K × V → Type μ) (k : K) (v : V) (d : List (K × V))
      → P (k, v)
      → All P d
      → All P (insert k v d)
  unfolding insert
  All-insert P k v [] new h = (new, tt)
  All-insert P k v ((j, w) ∷ d) new h = elim (Bool-cases (j == k)) [
    | inl here ↦
        let same : j ≡ k = (e.same_iff j k).0 here in rw (here, if◌then◌else◌) (rw same new, h.1)
    | inr other ↦ rw (other, if◌then◌else◌) (h.0, All-insert P k v d new h.1)
  ]
