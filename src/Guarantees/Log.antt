-- ===== src/Guarantees/Log.antt =====
-- What a user has been told, as a list of orders: the text at each of them, in turn.
use mathlib.Core.List.{Perm, perm_middle, append-nil}
use mathlib.Core.List.Perm
use distsys_course_work.Prelude.{
  ℕ, zero, suc, ◌≤◌, ◌≡◌, refl, true, false, some, List, [], ◌∷◌, ◌++◌, arith, ltb, nat_eq, ◌==◌,
  nat_same, if◌then◌else◌, get_elem?, get_elem?-append_left, lt_of_get_elem?, length, take,
  take-suc, get_elem?_of_lt, some-injective, subst, sym, ap, nat_same_iff, ◌∙◌, map, Bool-cases,
  inl, inr,
}
use distsys_course_work.Prelude.HashSet
use distsys_course_work.Runtime.{Message}

abbrev pub texts : {Text : Type 0} → List (Message Text) → List Text
texts = map (λ m. m.body)

-- No order stands twice in the list.
abbrev pub IsDistinct : List ℕ → Type 0
IsDistinct [] = Unit {0}
IsDistinct (k ∷ ks) = (HashSet.contains k ks ≡ false) × IsDistinct ks

-- The texts `ts` are those submitted under the orders `ks`, one for one.
abbrev pub Told : {Text : Type 0} → List Text → List ℕ → List Text → Type 0
Told inputs [] [] = Unit {0}
Told inputs [] (t ∷ ts) = ⊥
Told inputs (k ∷ ks) [] = ⊥
Told inputs (k ∷ ks) (t ∷ ts) = (get_elem? inputs k ≡ some t) × Told inputs ks ts

pub IsDistinct-append_end :
    (k : ℕ) (ks : List ℕ)
    → HashSet.contains k ks ≡ false
    → IsDistinct ks
    → IsDistinct (ks ++ k ∷ [])
unfolding HashSet.contains
IsDistinct-append_end k [] new d = (refl, tt)
IsDistinct-append_end k (j ∷ ks) new d =
    (ground (arith, HashSet.contains-append k j ks), IsDistinct-append_end k ks (ground arith) d.1)

IsDistinct-discard : (k : ℕ) (ks : List ℕ) → IsDistinct ks → IsDistinct (HashSet.discard k ks)
unfolding HashSet.discard
IsDistinct-discard k [] d = tt
IsDistinct-discard k (j ∷ ks) d = elim (Bool-cases (nat_same j k)) [
  | inl same ↦ rw same (IsDistinct-discard k ks d.1)
  | inr other ↦
      rw other (ground (arith, HashSet.contains-discard k j ks, d.0), IsDistinct-discard k ks d.1)
]

module _ {Text : Type 0} (inputs : List Text) where
  pub Told-append_end :
      (ks : List ℕ) (ts : List Text) (k : ℕ) (t : Text)
      → Told inputs ks ts
      → get_elem? inputs k ≡ some t
      → Told inputs (ks ++ k ∷ []) (ts ++ t ∷ [])
  Told-append_end [] [] k t h e = (e, tt)
  Told-append_end [] (u ∷ ts) k t h e = absurd h
  Told-append_end (j ∷ ks) [] k t h e = absurd h
  Told-append_end (j ∷ ks) (u ∷ ts) k t h e = (h.0, Told-append_end ks ts k t h.1 e)

  pub Told-submit :
      (ks : List ℕ) (ts new : List Text) → Told inputs ks ts → Told (inputs ++ new) ks ts
  Told-submit [] [] new h = tt
  Told-submit [] (u ∷ ts) new h = absurd h
  Told-submit (j ∷ ks) [] new h = absurd h
  Told-submit (j ∷ ks) (u ∷ ts) new h = (
    get_elem?-append_left inputs new j (lt_of_get_elem? inputs j u h.0) ∙ h.0,
    Told-submit ks ts new h.1,
  )

  -- The texts without that of one order.
  without : ℕ → List ℕ → List Text → List Text
  without k [] ts = ts
  without k (j ∷ ks) [] = []
  without k (j ∷ ks) (t ∷ ts) = let rest = without k ks ts in if j == k then rest else t ∷ rest

  Told-without :
      (k : ℕ) (ks : List ℕ) (ts : List Text)
      → Told inputs ks ts
      → Told inputs (HashSet.discard k ks) (without k ks ts)
  unfolding without HashSet.discard
  Told-without k [] [] h = tt
  Told-without k [] (t ∷ ts) h = absurd h
  Told-without k (j ∷ ks) [] h = absurd h
  Told-without k (j ∷ ks) (t ∷ ts) h = elim (Bool-cases (nat_same j k)) [
    | inl same ↦ rw same (Told-without k ks ts h.1)
    | inr other ↦ rw other (h.0, Told-without k ks ts h.1)
  ]

  without_absent :
      (k : ℕ) (ks : List ℕ) (ts : List Text)
      → Told inputs ks ts
      → HashSet.contains k ks ≡ false
      → without k ks ts ≡ ts
  unfolding without HashSet.contains
  without_absent k [] ts h new = refl
  without_absent k (j ∷ ks) [] h new = absurd h
  without_absent k (j ∷ ks) (t ∷ ts) h new =
      ground (arith, without_absent k ks ts h.1, nat_same_iff j k)

  -- Removing a text that is there once leaves the others.
  without-perm :
      (k : ℕ) (t : Text) (ks : List ℕ) (ts : List Text)
      → get_elem? inputs k ≡ some t
      → IsDistinct ks
      → Told inputs ks ts
      → HashSet.contains k ks ≡ true
      → Perm ts (t ∷ without k ks ts)
  unfolding without HashSet.contains
  without-perm k t [] ts at d h was = cc
  without-perm k t (j ∷ ks) [] at d h was = absurd h
  without-perm k t (j ∷ ks) (u ∷ ts) at d h was = elim (Bool-cases (nat_same j k)) [
    | inl same ↦
        let e : j ≡ k = (nat_same_iff j k).0 same in
        rw (same, without_absent k ks ts h.1 (subst (λ i. HashSet.contains i ks ≡ false) e d.0))
          (Perm.cons' (some-injective _ _ (sym h.0 ∙ ap (get_elem? inputs) e ∙ at)) Perm.rfl)
    | inr other ↦ rw other (
        Perm.trans
          (Perm.cons u (without-perm k t ks ts at d.1 h.1 (ground (arith, nat_same_iff j k))))
          (Perm.swap t u (without k ks ts)))
  ]

  Told-none :
      (ks : List ℕ) (ts : List Text)
      → ((j : ℕ) → HashSet.contains j ks ≡ ltb j 0)
      → Told inputs ks ts
      → ts ≡ []
  unfolding HashSet.contains
  Told-none [] [] all h = refl
  Told-none [] (t ∷ ts) all h = absurd h
  Told-none (j ∷ ks) ts all h = ground (arith, all j, nat_same_iff j j)

  -- If the orders are those below `n`, each once, the texts are the first `n` in some order.
  pub Told-Perm :
      (n : ℕ) (ks : List ℕ) (ts : List Text)
      → n ≤ length inputs
      → IsDistinct ks
      → ((j : ℕ) → HashSet.contains j ks ≡ ltb j n)
      → Told inputs ks ts
      → Perm ts (take n inputs)
  Told-Perm zero ks ts le d all h = rw (Told-none ks ts all h) Perm.rfl
  Told-Perm (suc n) ks ts le d all h =
      let (t, at) = get_elem?_of_lt inputs n le in
      rw (take-suc n inputs t at) (
        Perm.trans (without-perm n t ks ts at d h (ground (arith, all n))) (
          Perm.trans
            (Perm.cons t (
              Told-Perm n (HashSet.discard n ks) (without n ks ts) (omega arith)
                (IsDistinct-discard n ks d)
                (λ j. ground (arith, all j, HashSet.contains-discard n j ks))
                (Told-without n ks ts h)))
            (Perm.symm (
              subst (λ l. Perm (take n inputs ++ t ∷ []) (t ∷ l)) (append-nil (take n inputs))
                (perm_middle (take n inputs) [])))))
