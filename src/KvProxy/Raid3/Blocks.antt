-- ===== src/KvProxy/Raid3/Blocks.antt =====
-- raid3_split and raid3_parity: the blocks have one length, their bytes are the value's and zeros.
use mathlib.Core.List.{append_assoc, append-nil}
use native.Mathlib.Nat.{le-div_iff_mul-le}
use distsys_course_work.Prelude.{
  ℕ, zero, suc, ◌+◌, ◌-◌, ◌≤◌, ◌<◌, ◌≡◌, refl, sym, ap, ◌∙◌, inl, inr, true, Bool-cases, none, List,
  [], ◌∷◌, ◌++◌, map, length, length-append, take, take_all, nat_eq, ◌==◌, leb, arith,
}
use distsys_course_work.Runtime.{ok}
use distsys_course_work.KvProxy.Raid3.{
  DataBlock, zeros, zip_xor, drop, slices, padded, ceil_div, split_bytes, parity_loop, raid3_parity,
}
use distsys_course_work.KvProxy.Raid3.Bytes.{length-zeros, xor_all, Wide, length-zip_xor}

abbrev pub bytes_of : DataBlock → List ℕ
bytes_of block = block.data_

abbrev pub concat : List (List ℕ) → List ℕ
concat [] = []
concat (xs ∷ rest) = xs ++ concat rest

take-drop : (n : ℕ) (xs : List ℕ) → take n xs ++ drop n xs ≡ xs
take-drop zero xs = refl
take-drop (suc n) [] = refl
take-drop (suc n) (x ∷ xs) = ap (◌∷◌ x) (take-drop n xs)

length-take : (n : ℕ) (xs : List ℕ) → n ≤ length xs → length (take n xs) ≡ n
length-take zero xs h = refl
length-take (suc n) [] h = absurd (omega arith)
length-take (suc n) (x ∷ xs) h = omega (arith, length-take n xs (omega arith))

length-drop : (n : ℕ) (xs : List ℕ) → length (drop n xs) ≡ length xs - n
length-drop zero xs = omega arith
length-drop (suc n) [] = omega arith
length-drop (suc n) (x ∷ xs) = omega (arith, length-drop n xs)

length-take_le : (n : ℕ) (xs : List ℕ) → length (take n xs) ≤ n
length-take_le zero xs = omega arith
length-take_le (suc n) [] = omega arith
length-take_le (suc n) (x ∷ xs) = omega (arith, length-take_le n xs)

drop_all : (n : ℕ) (xs : List ℕ) → length xs ≤ n → drop n xs ≡ []
drop_all zero [] h = refl
drop_all zero (x ∷ xs) h = absurd (omega arith)
drop_all (suc n) [] h = refl
drop_all (suc n) (x ∷ xs) h = drop_all n xs (omega arith)

-- What the slices give after padding.
module _ (width : ℕ) where
  slices-nil : (fuel : ℕ) → slices fuel width [] ≡ []
  unfolding slices
  slices-nil zero = refl
  slices-nil (suc fuel) = refl

  padded-Wide :
      (fuel i : ℕ) (bs : List ℕ) → Wide width (map bytes_of (padded width i (slices fuel width bs)))
  unfolding padded slices
  padded-Wide zero i bs = tt
  padded-Wide (suc fuel) i [] = tt
  padded-Wide (suc fuel) i (b ∷ bs) = (
    omega (
      arith,
      length-append (take width (b ∷ bs)) (zeros (width - length (take width (b ∷ bs)))),
      length-zeros (width - length (take width (b ∷ bs))),
      length-take_le width (b ∷ bs),
    ),
    padded-Wide fuel (i + 1) (drop width (b ∷ bs)),
  )

  no_padding : (bs : List ℕ) → width ≤ length bs → zeros (width - length (take width bs)) ≡ []
  no_padding bs le = rw (length-take width bs le) (ap zeros nothing)
    where
      nothing : width - width ≡ 0
      nothing = omega arith

  padded-concat :
      (fuel i : ℕ) (bs : List ℕ)
      → 0 < width
      → length bs ≤ fuel
      → (k : ℕ) × (concat (map bytes_of (padded width i (slices fuel width bs))) ≡ bs ++ zeros k)
  unfolding padded slices
  padded-concat zero i [] w le = (0, refl)
  padded-concat zero i (b ∷ bs) w le = absurd (omega arith)
  padded-concat (suc fuel) i [] w le = (0, refl)
  padded-concat (suc fuel) i (b ∷ bs) w le =
      let (k, ih) =
        padded-concat fuel (i + 1) (drop width (b ∷ bs)) w
          (omega (arith, length-drop width (b ∷ bs))) in
      elim (Bool-cases (leb (suc (length bs)) width)) [
        | inl last ↦
            let all : length (b ∷ bs) ≤ width = ground arith in
            (
              width - length (b ∷ bs),
              rw (take_all width (b ∷ bs) all, drop_all width (b ∷ bs) all, slices-nil fuel)
                  (append-nil _),
            )
        | inr full ↦
            let no_zeros : zeros (width - length (take width (b ∷ bs))) ≡ [] =
              no_padding (b ∷ bs) (ground arith) in
            (
              k,
              rw
                  (
                    no_zeros,
                    append-nil (take width (b ∷ bs)),
                    ih,
                    ← append_assoc,
                    take-drop width (b ∷ bs),
                  )
                  refl,
            )
      ]

-- Every value that is not empty is split, into blocks of one length.
pub split_bytes_lem :
    (d b : ℕ) (bs : List ℕ)
    → (blocks : List DataBlock) × (width k : ℕ) × (split_bytes (suc d) (b ∷ bs) ≡ ok blocks)
      × Wide width (map bytes_of blocks)
      × (concat (map bytes_of blocks) ≡ (b ∷ bs) ++ zeros k)
      × (0 < length blocks)
unfolding split_bytes padded slices
split_bytes_lem d b bs =
    let width : ℕ = ceil_div (suc (length bs)) (suc d) in
    let width_pos : 0 < width =
      (le-div_iff_mul-le {k = suc d} {x = 1} {y = suc (length bs) + (suc d - 1)} (omega arith)).1
        (omega arith) in
    let (k, joined) = padded-concat width (suc (length bs)) 0 (b ∷ bs) width_pos (omega arith) in
    (_, width, k, refl, padded-Wide width (suc (length bs)) 0 (b ∷ bs), joined, omega arith)

module _ (width : ℕ) where
  parity_loop_lem :
      (parity : List ℕ) (blocks : List DataBlock)
      → length parity ≡ width
      → Wide width (map bytes_of blocks)
      → parity_loop parity blocks ≡ ok (xor_all parity (map bytes_of blocks))
  unfolding parity_loop
  parity_loop_lem parity [] p w = refl
  parity_loop_lem parity (block ∷ blocks) p w =
      let same : (length block.data_ == length parity) ≡ true =
        (nat_eq.same_iff _ _).1 (w.0 ∙ sym p) in
      rw (parity_loop, same)
        (parity_loop_lem (zip_xor parity block.data_) blocks
          (length-zip_xor parity block.data_ (w.0 ∙ sym p) ∙ p) w.1)

  pub raid3_parity_lem :
      (blocks : List DataBlock)
      → 0 < length blocks
      → Wide width (map bytes_of blocks)
      → raid3_parity blocks
        ≡ ok (record { index = none; data_ = xor_all (zeros width) (map bytes_of blocks) })
  unfolding raid3_parity
  raid3_parity_lem [] h w = absurd (omega arith)
  raid3_parity_lem (block ∷ blocks) h w =
      rw (w.0, parity_loop_lem (zeros width) (block ∷ blocks) (length-zeros width) w) refl
