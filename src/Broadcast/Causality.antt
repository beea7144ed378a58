-- ===== src/Broadcast/Causality.antt =====
-- The causal order of deliveries. A log holds the messages that a process has delivered, newest
-- first.
use distsys_course_work.Prelude.{
  ℕ, zero, suc, ◌+◌, ◌<◌, ◌≤◌, ◌≡◌, refl, Bool, true, false, List, [], ◌∷◌, ◌++◌, nat_eq, ◌==◌,
  if◌then◌else◌, length, arith, leb, nat_same, Bool-cases, inl, inr,
}
use distsys_course_work.Runtime.{ok, ◌>>=◌}
use distsys_course_work.Runtime.Items.{item, set_item}
use distsys_course_work.Broadcast.State.{Bcast, all_le}

module _ {Text : Type 0} where
  -- How many messages of the process `i` are in the log.
  unfoldable pub count_from : ℕ → List (Bcast Text) → ℕ
  count_from i [] = 0
  count_from i (b ∷ log) = let rest = count_from i log in if b.sender == i then suc rest else rest

  -- The first `n` numbers of the vector are at most the counts of the processes from `i` on.
  abbrev pub Below : ℕ → ℕ → List ℕ → List (Bcast Text) → Type 0
  Below zero i state log = Unit
  Below (suc n) i [] log = ⊥
  Below (suc n) i (v ∷ state) log = (v ≤ count_from i log) × Below n (suc i) state log

  -- The message is the next one of its sender, and all that its sender had delivered is in the log.
  abbrev pub Follows : ℕ → Bcast Text → List (Bcast Text) → Type 0
  Follows n b log = (b.counter ≡ count_from b.sender log) × Below n 0 b.state log

  abbrev pub Causal : ℕ → List (Bcast Text) → Type 0
  Causal n [] = Unit
  Causal n (b ∷ log) = Follows n b log × Causal n log

  abbrev pub texts_of : List (Bcast Text) → List Text
  texts_of [] = []
  texts_of (b ∷ log) = texts_of log ++ b.text ∷ []

  -- A vector that holds the counts of the processes from `i` on.
  abbrev pub Counts : ℕ → List ℕ → List (Bcast Text) → Type 0
  Counts i [] log = Unit
  Counts i (v ∷ state) log = (v ≡ count_from i log) × Counts (suc i) state log

  pub item-Counts :
      (log : List (Bcast Text)) (k i j : ℕ) (state : List ℕ)
      → Counts i state log
      → k + i ≡ j
      → k < length state
      → item state k ≡ ok (count_from j log)
  item-Counts log k i j [] c e l = absurd (omega arith)
  item-Counts log zero i j (v ∷ state) c e l = let same : i ≡ j = omega arith in cc (c.0, same)
  item-Counts log (suc k) i j (v ∷ state) c e l =
      item-Counts log k (suc i) j state c.1 (omega arith) (omega arith)

  Counts-other :
      (b : Bcast Text) (log : List (Bcast Text)) (i : ℕ) (state : List ℕ)
      → b.sender < i
      → Counts i state log
      → Counts i state (b ∷ log)
  unfolding count_from
  Counts-other b log i [] l c = tt
  Counts-other b log i (v ∷ state) l c =
      (ground (arith, c.0), Counts-other b log (suc i) state (omega arith) c.1)

  -- A delivery moves the number of its sender, and keeps the others.
  pub set_item-Counts :
      (b : Bcast Text) (log : List (Bcast Text)) (k i : ℕ) (state : List ℕ)
      → Counts i state log
      → k + i ≡ b.sender
      → k < length state
      → b.counter ≡ count_from b.sender log
      → (state' : List ℕ) × (set_item k (b.counter + 1) state ≡ ok state')
        × (length state' ≡ length state)
        × Counts i state' (b ∷ log)
  unfolding count_from
  set_item-Counts b log k i [] c e l next = absurd (omega arith)
  set_item-Counts b log zero i (v ∷ state) c e l next =
      let same : i ≡ b.sender = omega arith in
      (
        (b.counter + 1) ∷ state,
        refl,
        refl,
        (ground (arith, next, same), Counts-other b log (suc i) state (omega arith) c.1),
      )
  set_item-Counts b log (suc k) i (v ∷ state) c e l next =
      let (state', run, len, counts) =
        set_item-Counts b log k (suc i) state c.1 (omega arith) (omega arith) next in
      let other : nat_same b.sender i ≡ false = ground arith in
      let kept : v ≡ count_from i (b ∷ log) = rw (count_from, other) c.0 in
      (v ∷ state', rw (run, ◌>>=◌) refl, omega (arith, len), (kept, counts))

  -- The comparison of the vectors raises nothing, and says whether the log has all it needs.
  pub all_le-Below :
      (log : List (Bcast Text)) (i : ℕ) (state own : List ℕ)
      → Counts i own log
      → length own ≤ length state
      → (b : Bool) × (all_le state own ≡ ok b) × (b ≡ true → Below (length own) i state log)
  unfolding all_le
  all_le-Below log i state [] c l = (true, refl, λ e. tt)
  all_le-Below log i [] (o ∷ own) c l = absurd (omega arith)
  all_le-Below log i (v ∷ state) (o ∷ own) c l = elim (Bool-cases (leb v o)) [
    | inl below ↦
        let (b, run, all_below) = all_le-Below log (suc i) state own c.1 (omega arith) in
        (b, rw (all_le, below) run, λ e. (ground (arith, c.0), all_below e))
    | inr above ↦ (false, rw (all_le, above) refl, λ e. cc)
  ]
