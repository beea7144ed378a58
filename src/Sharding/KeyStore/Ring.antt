-- ===== src/Sharding/KeyStore/Ring.antt =====
-- The nodes of a KeyStore as a ring: what the search, the insertion and the split are to compute,
-- by recursion on the list of nodes.
use distsys_course_work.Prelude.{
  ℕ, zero, suc, ◌≤◌, ◌<◌, ◌≡◌, ◌⊎◌, refl, inl, inr, All-map, Bool-cases, Option, none, some,
  some-injective, String, List, [], ◌∷◌, All, All-get_elem?, get_elem?, get_elem?_of_lt, length,
  ltb, leb, if◌then◌else◌, arith, nat_eq, text_eq,
}
use distsys_course_work.Sharding.Deque.{insert_from_left}

-- The last element.
unfoldable pub last {ℓ} : {A : Type ℓ} → List A → Option A
last [] = none
last (x ∷ d) = let rest = last d in elim rest [ none ↦ some x | some y ↦ some y ]

-- The last node whose hash is at most `h`.
unfoldable pub last_le : ℕ → List (ℕ × String) → Option (ℕ × String)
last_le h [] = none
last_le h (x ∷ d) =
    let rest = last_le h d in
    elim rest [ none ↦ if leb x.0 h then some x else none | some y ↦ some y ]

-- The node that owns a hash: the ring goes on from its last node to its first.
abbrev pub owner : ℕ → List (ℕ × String) → Option (ℕ × String)
owner h d = elim (last_le h d) [ none ↦ last d | some y ↦ some y ]

-- A new node stands before the first of a larger hash.
unfoldable pub place : ℕ × String → List (ℕ × String) → List (ℕ × String)
place el [] = el ∷ []
place el (x ∷ d) = let rest = place el d in if ltb el.0 x.0 then el ∷ x ∷ d else x ∷ rest

-- The nodes stand in the order of their hashes.
abbrev pub IsSorted : List (ℕ × String) → Type 0
IsSorted [] = Unit
IsSorted (x ∷ d) = All (λ y. x.0 ≤ y.0) d × IsSorted d

-- The first `n` nodes are the ones of a hash at most `h`.
abbrev pub Cut : ℕ → ℕ → List (ℕ × String) → Type 0
Cut h n d =
    (j : ℕ) (a : ℕ × String) → get_elem? d j ≡ some a → (j < n → a.0 ≤ h) × (n ≤ j → h < a.0)

pub IsSorted-get_elem? :
    (d : List (ℕ × String)) (i j : ℕ) (a b : ℕ × String)
    → IsSorted d
    → i ≤ j
    → get_elem? d i ≡ some a
    → get_elem? d j ≡ some b
    → a.0 ≤ b.0
IsSorted-get_elem? [] i j a b s le f g = ground arith
IsSorted-get_elem? (x ∷ d) zero zero a b s le f g =
    ground (arith, some-injective x a f, some-injective x b g)
IsSorted-get_elem? (x ∷ d) zero (suc j) a b s le f g =
    ground (arith, some-injective x a f, All-get_elem? (λ y. x.0 ≤ y.0) d j s.0 g)
IsSorted-get_elem? (x ∷ d) (suc i) zero a b s le f g = absurd (omega arith)
IsSorted-get_elem? (x ∷ d) (suc i) (suc j) a b s le f g =
    IsSorted-get_elem? d i j a b s.1 (omega arith) f g

module _ (h : ℕ) (x : ℕ × String) (d : List (ℕ × String)) where
  Cut-suc : (n : ℕ) → Cut h (suc n) (x ∷ d) → Cut h n d
  Cut-suc n c j a e = (λ lt. (c (suc j) a e).0 (omega arith), λ le. (c (suc j) a e).1 (omega arith))

  Cut-zero : Cut h 0 (x ∷ d) → Cut h 0 d
  Cut-zero c j a e = (λ lt. absurd (omega arith), λ le. (c (suc j) a e).1 (omega arith))

pub insert_from_left-place :
    (el : ℕ × String) (n : ℕ) (d : List (ℕ × String))
    → Cut el.0 n d
    → n ≤ length d
    → insert_from_left n el d ≡ place el d
unfolding place
insert_from_left-place el zero [] c le = refl
insert_from_left-place el zero (x ∷ d) c le = ground (arith, (c 0 x refl).1)
insert_from_left-place el (suc n) [] c le = absurd (omega arith)
insert_from_left-place el (suc n) (x ∷ d) c le =
    ground
      (arith, (c 0 x refl).0, insert_from_left-place el n d (Cut-suc el.0 x d n c) (omega arith))

-- Where the cut is, there is the last node at or before the hash.
pub last_le-Cut_zero : (h : ℕ) (d : List (ℕ × String)) → Cut h 0 d → last_le h d ≡ none
unfolding last_le
last_le-Cut_zero h [] c = refl
last_le-Cut_zero h (x ∷ d) c =
    ground (arith, (c 0 x refl).1, last_le-Cut_zero h d (Cut-zero h x d c))

pub last_le-Cut :
    (h n : ℕ) (d : List (ℕ × String)) → Cut h (suc n) d → n < length d → last_le h d ≡ get_elem? d n
unfolding last_le
last_le-Cut h n [] c lt = absurd (omega arith)
last_le-Cut h zero (x ∷ d) c lt =
    ground (arith, (c 0 x refl).0, last_le-Cut_zero h d (Cut-suc h x d 0 c))
last_le-Cut h (suc n) (x ∷ d) c lt =
    let (a, e) = get_elem?_of_lt d n (omega arith) in
    ground (arith, e, last_le-Cut h n d (Cut-suc h x d (suc n) c) (omega arith))

pub last-get_elem? :
    (d : List (ℕ × String)) (x : ℕ × String) → last (x ∷ d) ≡ get_elem? (x ∷ d) (length d)
unfolding last
last-get_elem? [] x = refl
last-get_elem? (y ∷ d) x = ground (arith, last-get_elem? d y, get_elem?_of_lt (y ∷ d) (length d))

pub All-insert :
    (P : ℕ × String → Type 0) (el : ℕ × String) (d : List (ℕ × String))
    → P el
    → All P d
    → All P (place el d)
unfolding place
All-insert P el [] p all = (p, tt)
All-insert P el (x ∷ d) p all = elim (Bool-cases (ltb el.0 x.0)) [
  | inl before ↦ rw before (p, all)
  | inr after ↦ rw after (all.0, All-insert P el d p all.1)
]

pub place-IsSorted : (el : ℕ × String) (d : List (ℕ × String)) → IsSorted d → IsSorted (place el d)
unfolding place
place-IsSorted el [] s = (tt, tt)
place-IsSorted el (x ∷ d) s = elim (Bool-cases (ltb el.0 x.0)) [
  | inl before ↦
      rw before
        ((ground arith, All-map (λ y. x.0 ≤ y.0) (λ y. el.0 ≤ y.0) (λ y le. ground arith) d s.0), s)
  | inr after ↦
      rw after (All-insert (λ y. x.0 ≤ y.0) el d (ground arith) s.0, place-IsSorted el d s.1)
]

pub last_le-below :
    (h n : ℕ) (d : List (ℕ × String)) → All (λ y. n ≤ y.0) d → h < n → last_le h d ≡ none
unfolding last_le
last_le-below h n [] all lt = refl
last_le-below h n (x ∷ d) all lt = ground (arith, all.0, last_le-below h n d all.1 lt)

-- The last node at or before a hash, on the ring with a new node.
pub last_le-place :
    (h : ℕ) (el : ℕ × String) (d : List (ℕ × String))
    → IsSorted d
    → (last_le h (place el d) ≡ last_le h d)
      ⊎ ((last_le h (place el d) ≡ some el) × (last_le h d ≡ last_le el.0 d) × (el.0 ≤ h))
unfolding place last_le
last_le-place h el [] s = ground arith
last_le-place h el (x ∷ d) s =
    ground
      (arith, last_le-place h el d s.1, last_le-below h x.0 d s.0, last_le-below el.0 x.0 d s.0)
