-- ===== src/Sharding/KeyStore/Search.antt =====
-- The binary search of a KeyStore: it ends, and finds where a hash cuts the sorted nodes.
use native.Mathlib.Nat.{pow-suc, pow-zero}
use distsys_course_work.Prelude.{
  ℕ, zero, suc, ◌+◌, ◌-◌, ◌/◌, ◌^◌, ◌≤◌, ◌<◌, ◌≡◌, ◌∙◌, refl, inl, inr, Bool, true, false, some,
  String, List, Bool-cases, get_elem?, get_elem?_of_lt, length, ltb, arith, nat_eq, ◌==◌,
}
use distsys_course_work.Runtime.{ok, ◌>>=◌}
use distsys_course_work.Sharding.Deque.{or_raise}
use distsys_course_work.Sharding.KeyStore.{bin_search}
use distsys_course_work.Sharding.KeyStore.Ring.{IsSorted, IsSorted-get_elem?, Cut}

module _ (fuel : ℕ) (d : List (ℕ × String)) (h l r : ℕ) (differ : (r == l) ≡ false) where
  bin_search-left :
      (el : ℕ × String)
      → get_elem? d ((l + r) / 2 + 1) ≡ some el
      → ltb h el.0 ≡ true
      → bin_search (suc fuel) d h l r ≡ bin_search fuel d h l ((l + r) / 2 + 1 - 1)
  unfolding bin_search
  bin_search-left el here after = rw (bin_search, differ, here, or_raise, ◌>>=◌, after) refl

  bin_search-right :
      (el : ℕ × String)
      → get_elem? d ((l + r) / 2 + 1) ≡ some el
      → ltb h el.0 ≡ false
      → bin_search (suc fuel) d h l r ≡ bin_search fuel d h ((l + r) / 2 + 1) r
  unfolding bin_search
  bin_search-right el here before = rw (bin_search, differ, here, or_raise, ◌>>=◌, before) refl

module _ (d : List (ℕ × String)) (h : ℕ) (ordered : IsSorted d) where
  -- On nodes sorted by hash, when those up to `l` have hashes at most `h`, those behind `r` have
  -- hashes above it, and `r - l < 2 ^ fuel`, the search ends within `fuel + 1` calls, with the index
  -- of the last node whose hash is at most `h`.
  pub bin_search-Cut :
      (fuel l r : ℕ)
      → l ≤ r
      → r < length d
      → r < l + 2 ^ fuel
      → ((j : ℕ) (a : ℕ × String) → j ≤ l → get_elem? d j ≡ some a → a.0 ≤ h)
      → ((j : ℕ) (a : ℕ × String) → r < j → get_elem? d j ≡ some a → h < a.0)
      → (i : ℕ) × (bin_search (suc fuel) d h l r ≡ ok i) × (i < length d) × Cut h (suc i) d
  unfolding bin_search
  bin_search-Cut zero l r le bound enough low high =
      let same : ◌≡◌ {A = Bool} (r == l) true = ground (arith, pow-zero 2) in
      (
        r,
        rw (same, bin_search) refl,
        bound,
        λ j a e. (λ lt. low j a (ground (arith, pow-zero 2)) e, λ le. high j a (omega arith) e),
      )
  bin_search-Cut (suc fuel) l r le bound enough low high = elim (Bool-cases (r == l)) [
    | inl same ↦ (
      r,
      rw (same, bin_search) refl,
      bound,
      λ j a e. (λ lt. low j a (ground arith) e, λ le. high j a (omega arith) e),
    )
    | inr differ ↦
        let apart : l < r = ground arith in
        let (el, here) = get_elem?_of_lt d ((l + r) / 2 + 1) (omega arith) in
        elim (Bool-cases (ltb h el.0)) [
          | inl after ↦
              let (i, run, lt, found) =
                bin_search-Cut fuel l ((l + r) / 2 + 1 - 1) (omega arith) (omega arith)
                  (omega (arith, pow-suc 2 fuel)) low
                  (λ j a lt e.
                    let before_it =
                      IsSorted-get_elem? d ((l + r) / 2 + 1) j el a ordered (omega arith) here e in
                    ground arith) in
              (i, bin_search-left (suc fuel) d h l r differ el here after ∙ run, lt, found)
          | inr before ↦
              let (i, run, lt, found) =
                bin_search-Cut fuel ((l + r) / 2 + 1) r (omega arith) bound
                  (omega (arith, pow-suc 2 fuel))
                  (λ j a le e.
                    let before_it =
                      IsSorted-get_elem? d j ((l + r) / 2 + 1) a el ordered (omega arith) e here in
                    ground arith)
                  high in
              (i, bin_search-right (suc fuel) d h l r differ el here before ∙ run, lt, found)
        ]
  ]
