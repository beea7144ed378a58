-- ===== src/KvProxy/QuorumProxy/Counting.antt =====
-- The counts of contents: count_up and find_quorum.
use distsys_course_work.Prelude.{
  ℕ, suc, ◌+◌, ◌*◌, ◌≤◌, ◌<◌, ◌≡◌, inl, inr, ap, ◌∙◌, String, none, some, Option-cases, List, [],
  ◌∷◌, nat_eq, text_eq, ◌==◌, if◌then◌else◌, arith,
}
use distsys_course_work.Prelude.Dict
use distsys_course_work.KvProxy.QuorumProxy.{count_up, find_quorum}

abbrev pub count_of : String → List (String × ℕ) → ℕ
count_of c values = elim (Dict.lookup c values) [ none ↦ 0 | some n ↦ n ]

lookup-count_up :
    (c c' : String) (values : List (String × ℕ))
    → Dict.lookup c (count_up c' values)
      ≡ (if c' == c then some (suc (count_of c' values)) else Dict.lookup c values)
unfolding count_up
lookup-count_up c c' values = elim (Option-cases (Dict.lookup c' values)) [
  | inl new ↦
      let first : 1 ≡ suc (count_of c' values) = ground (arith, new) in
      rw (count_up, new)
        (Dict.lookup-insert c' c 1 values
          ∙ ap (λ k. if c' == c then some k else Dict.lookup c values) first)
  | inr (n, old) ↦
      let one_more : n + 1 ≡ suc (count_of c' values) = ground (arith, old) in
      rw (count_up, old)
        (Dict.lookup-insert c' c (n + 1) values
          ∙ ap (λ k. if c' == c then some k else Dict.lookup c values) one_more)
]

pub count_of-count_up :
    (c c' : String) (values : List (String × ℕ))
    → count_of c (count_up c' values) ≡ (if c' == c then 1 else 0) + count_of c values
count_of-count_up c c' values = ground (
  arith,
  lookup-count_up c c' values,
  text_eq.same_iff c' c,
  λ (same : c' ≡ c). ap (λ k. Dict.lookup k values) same,
)

pub count_up-IsDict :
    (c : String) (values : List (String × ℕ)) → Dict.IsDict values → Dict.IsDict (count_up c values)
unfolding count_up
count_up-IsDict c values dict = elim (Option-cases (Dict.lookup c values)) [
  | inl new ↦ rw (count_up, new) (Dict.insert-IsDict c 1 values dict)
  | inr (n, old) ↦ rw (count_up, old) (Dict.insert-IsDict c (n + 1) values dict)
]

-- The first with more than half has its own count.
pub find_quorum-count :
    (n : ℕ) (values : List (String × ℕ)) (c : String)
    → Dict.IsDict values
    → find_quorum n values ≡ some c
    → n < 2 * count_of c values
unfolding find_quorum Dict.lookup
find_quorum-count n [] c dict e = ground arith
find_quorum-count n ((k, cnt) ∷ values) c dict e = ground (
  arith,
  find_quorum-count n values c dict.1,
  text_eq.same_iff k c,
  dict.0,
  Dict.has-lookup k values,
  λ (same : k ≡ c). ap (λ j. Dict.lookup j values) same,
)

pub find_quorum-none :
    (n : ℕ) (values : List (String × ℕ)) (c : String)
    → find_quorum n values ≡ none
    → 2 * count_of c values ≤ n
unfolding find_quorum Dict.lookup
find_quorum-none n [] c e = omega arith
find_quorum-none n ((k, cnt) ∷ values) c e = ground (arith, find_quorum-none n values c)
