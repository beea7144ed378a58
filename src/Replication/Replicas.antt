-- ===== src/Replication/Replicas.antt =====
-- The replicas of a key are nodes, and different nodes.
use native.Mathlib.Nat.{mod-lt, mod-eq_of_lt, mod_self}
use distsys_course_work.Prelude.{
  ℕ, zero, suc, ◌+◌, ◌%◌, ◌<◌, ◌≤◌, ◌≡◌, ◌≢◌, ◌⊎◌, ltb, ap, ◌∙◌, refl, String, [], ◌∷◌, arith,
  Bool-cases, inl, inr,
}
use distsys_course_work.Runtime.{ok}
use distsys_course_work.Replication.{get_next_replica, replicas_from, get_key_replicas}

next-cases :
    (i n : ℕ)
    → i < n
    → ((get_next_replica i n ≡ i + 1) × (i + 1 < n)) ⊎ ((get_next_replica i n ≡ 0) × (i + 1 ≡ n))
unfolding get_next_replica
next-cases i n h = elim (Bool-cases (ltb (i + 1) n)) [
  | inl inside ↦ inl (mod-eq_of_lt (ground (arith, inside)), ground (arith, inside))
  | inr last ↦
      let whole : i + 1 ≡ n = ground (arith, last, h) in
      inr (ap (λ k. k % n) whole ∙ mod_self n, whole)
]

next-lt : (i n : ℕ) → i < n → get_next_replica i n < n
unfolding get_next_replica
next-lt i n h = mod-lt (i + 1) (omega arith)

-- Of three nodes or more, a node, the next and the one after it are three nodes.
next_two_differ :
    (a n : ℕ)
    → 3 ≤ n
    → a < n
    → (a ≢ get_next_replica a n)
      × (get_next_replica a n ≢ get_next_replica (get_next_replica a n) n)
      × (a ≢ get_next_replica (get_next_replica a n) n)
next_two_differ a n h node =
    three (get_next_replica a n) (get_next_replica (get_next_replica a n) n) (next-cases a n node)
      (next-cases (get_next_replica a n) n (next-lt a n node))
  where
    three :
        (b c : ℕ)
        → ((b ≡ a + 1) × (a + 1 < n)) ⊎ ((b ≡ 0) × (a + 1 ≡ n))
        → ((c ≡ b + 1) × (b + 1 < n)) ⊎ ((c ≡ 0) × (b + 1 ≡ n))
        → (a ≢ b) × (b ≢ c) × (a ≢ c)
    three b c (inl x) (inl y) =
        (λ e. absurd (omega arith), λ e. absurd (omega arith), λ e. absurd (omega arith))
    three b c (inl x) (inr y) =
        (λ e. absurd (omega arith), λ e. absurd (omega arith), λ e. absurd (omega arith))
    three b c (inr x) (inl y) =
        (λ e. absurd (omega arith), λ e. absurd (omega arith), λ e. absurd (omega arith))
    three b c (inr x) (inr y) =
        (λ e. absurd (omega arith), λ e. absurd (omega arith), λ e. absurd (omega arith))

-- Of three nodes or more, a key has three replicas, each of them a node and no two the same, in the
-- order of the ring, whatever number the hash gives.
pub replicas_distinct :
    (md5 : String → ℕ) (key : String) (n : ℕ)
    → 3 ≤ n
    → (a b c : ℕ) × (get_key_replicas md5 key n ≡ ok (a ∷ b ∷ c ∷ []))
      × (a < n)
      × (b < n)
      × (c < n)
      × (b ≡ get_next_replica a n)
      × (c ≡ get_next_replica b n)
      × (a ≢ b)
      × (b ≢ c)
      × (a ≢ c)
unfolding get_key_replicas replicas_from
replicas_distinct md5 key zero h = absurd (omega arith)
replicas_distinct md5 key (suc n) h =
    let a = md5 key % suc n in
    let node : a < suc n = mod-lt (md5 key) (omega arith) in
    let next_node = next-lt a (suc n) node in
    let (first, second, third) = next_two_differ a (suc n) h node in
    (
      a,
      get_next_replica a (suc n),
      get_next_replica (get_next_replica a (suc n)) (suc n),
      refl,
      node,
      next_node,
      next-lt (get_next_replica a (suc n)) (suc n) next_node,
      refl,
      refl,
      first,
      second,
      third,
    )
