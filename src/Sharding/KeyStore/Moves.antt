-- ===== src/Sharding/KeyStore/Moves.antt =====
-- Which owners a new node changes: it takes over hashes of one node, the one that owned its own.
use distsys_course_work.Prelude.{
  ℕ, ◌≤◌, ◌<◌, ◌≡◌, ◌⊎◌, refl, inl, inr, All, Bool-cases, none, some, Option-cases, String, List,
  [], ◌∷◌, ltb, if◌then◌else◌, arith, text_eq,
}
use distsys_course_work.Sharding.KeyStore.Ring.{
  IsSorted, last, last_le, last_le-below, last_le-place, owner, place,
}

last-above :
    (n : ℕ) (d : List (ℕ × String)) (y : ℕ × String)
    → All (λ z. n ≤ z.0) d
    → last d ≡ some y
    → n ≤ y.0
unfolding last
last-above n [] y all e = ground arith
last-above n (x ∷ d) y all e = ground (arith, all.0, last-above n d y all.1)

last-cons :
    (x : ℕ × String) (d : List (ℕ × String))
    → All (λ z. x.0 ≤ z.0) d
    → (y : ℕ × String) × (last (x ∷ d) ≡ some y) × (x.0 ≤ y.0)
unfolding last
last-cons x d all = elim (Option-cases (last d)) [
  | inl e ↦ (x, ground arith, omega arith)
  | inr (y, e) ↦ (y, ground arith, last-above x.0 d y all e)
]

pub last_le-none_mono :
    (n h : ℕ) (d : List (ℕ × String)) → n ≤ h → last_le h d ≡ none → last_le n d ≡ none
unfolding last_le
last_le-none_mono n h [] le e = refl
last_le-none_mono n h (x ∷ d) le e = ground (arith, last_le-none_mono n h d le)

last_le-gt :
    (n h : ℕ) (d : List (ℕ × String)) (y : ℕ × String)
    → last_le n d ≡ none
    → last_le h d ≡ some y
    → n < y.0
unfolding last_le
last_le-gt n h [] y e f = ground arith
last_le-gt n h (x ∷ d) y e f = ground (arith, last_le-gt n h d y)

module _ (el : ℕ × String) where
  -- A new node that is not the last leaves the last one, which is after it.
  pub last-place :
      (d : List (ℕ × String))
      → IsSorted d
      → ((last (place el d) ≡ some el) × (last_le el.0 d ≡ last d))
        ⊎ ((y : ℕ × String) × (last (place el d) ≡ some y) × (last d ≡ some y) × (el.0 < y.0))
  unfolding place last last_le
  last-place [] s = inl (refl, refl)
  last-place (x ∷ d) s = elim (Bool-cases (ltb el.0 x.0)) [
    | inl before ↦
        let (y, e, le) = last-cons x d s.0 in
        inr (y, rw (before, if◌then◌else◌, last, e) refl, e, ground arith)
    | inr after ↦ elim (last-place d s.1) [
      | inl (p, q) ↦ inl (ground arith, ground arith)
      | inr (y, p, q, lt) ↦ inr (y, ground arith, ground arith, lt)
    ]
  ]

  pub last_le-place_before :
      (h : ℕ) (d : List (ℕ × String)) → h < el.0 → last_le h (place el d) ≡ last_le h d
  unfolding place last_le
  last_le-place_before h [] lt = ground arith
  last_le-place_before h (x ∷ d) lt = ground (arith, last_le-place_before h d lt)

  pub last_le-place_after :
      (h : ℕ) (d : List (ℕ × String))
      → IsSorted d
      → el.0 ≤ h
      → last_le h d ≡ last_le el.0 d
      → last_le h (place el d) ≡ some el
  unfolding place last_le
  last_le-place_after h [] s le same = ground arith
  last_le-place_after h (x ∷ d) s le same = ground (
    arith,
    last_le-place_after h d s.1 le,
    last_le-none_mono el.0 h d le,
    last_le-gt el.0 h d x,
    last_le-below el.0 x.0 d s.0,
  )

pub last_le-le : (h : ℕ) (d : List (ℕ × String)) (y : ℕ × String) → last_le h d ≡ some y → y.0 ≤ h
unfolding last_le
last_le-le h [] y e = ground arith
last_le-le h (x ∷ d) y e = ground (arith, last_le-le h d y)

pub lt_of_last_le-none :
    (h : ℕ) (d : List (ℕ × String)) (y : ℕ × String)
    → last_le h d ≡ none
    → last d ≡ some y
    → h < y.0
unfolding last_le last
lt_of_last_le-none h [] y e f = ground arith
lt_of_last_le-none h (x ∷ d) y e f = ground (arith, lt_of_last_le-none h d y)

last-none : (d : List (ℕ × String)) → last d ≡ none → (h : ℕ) → last_le h d ≡ none
unfolding last_le last
last-none [] e h = refl
last-none (x ∷ d) e h = ground arith

-- What a new node takes over is a part of what the owner of its own hash had.
pub owner-place :
    (h : ℕ) (el : ℕ × String) (d : List (ℕ × String))
    → IsSorted d
    → (owner h (place el d) ≡ owner h d)
      ⊎ ((owner h (place el d) ≡ some el) × (owner h d ≡ owner el.0 d))
owner-place h el d s = ground (arith, last_le-place h el d s, last-place el d s, last-none d)
