-- ===== src/KvProxy/Raid3.antt =====
-- kv/proxy/strategies.py: DataBlock and the raid3 functions. Bytes are numbers below 256. A text's
-- UTF-8 is a parameter, in both directions.
pub mod Bytes
pub mod Blocks
pub mod Missing
pub mod Recovery
pub mod ShortSplit
use Prim.Native.Nat.{bit_xor}
use distsys_course_work.Prelude.{
  ℕ, zero, suc, ◌+◌, ◌-◌, ◌/◌, String, Bool, true, false, Option, none, some, List, [], ◌∷◌, ◌++◌,
  length, take, nat_same, nat_eq, ◌==◌, if◌then◌else◌,
}
use distsys_course_work.Runtime.{
  Result, ok, raise, ◌>>=◌, value_error, index_error, type_error, attribute_error,
  zero_division_error,
}

pub record DataBlock : Type 0 where
  pub index : Option ℕ
  pub data_ : List ℕ

-- n * b'\x00'
abbrev pub zeros : ℕ → List ℕ
zeros zero = []
zeros (suc n) = 0 ∷ zeros n

-- bytes(a ^ b for a, b in zip(xs, ys))
unfoldable pub zip_xor : List ℕ → List ℕ → List ℕ
zip_xor [] ys = []
zip_xor (x ∷ xs) [] = []
zip_xor (x ∷ xs) (y ∷ ys) = bit_xor x y ∷ zip_xor xs ys

abbrev pub drop {ℓ} : {A : Type ℓ} → ℕ → List A → List A
drop zero xs = xs
drop (suc n) [] = []
drop (suc n) (x ∷ xs) = drop n xs

-- The slices of `width` bytes; the length is fuel enough when `width` is not 0.
unfoldable pub slices : ℕ → ℕ → List ℕ → List (List ℕ)
slices zero width bytes_ = []
slices (suc fuel) width [] = []
slices (suc fuel) width (b ∷ bytes_) =
    take width (b ∷ bytes_) ∷ slices fuel width (drop width (b ∷ bytes_))

-- for i, block in enumerate(split)
unfoldable pub padded : ℕ → ℕ → List (List ℕ) → List DataBlock
padded width i [] = []
padded width i (block ∷ split) =
    record { index = some i; data_ = block ++ zeros (width - length block) }
    ∷ padded width (i + 1) split

-- math.ceil(n / d)
abbrev pub ceil_div : ℕ → ℕ → ℕ
ceil_div n d = (n + (d - 1)) / d

unfoldable pub split_bytes : ℕ → List ℕ → Result (List DataBlock)
split_bytes zero bytes_ = raise zero_division_error
split_bytes (suc d) [] = raise value_error
split_bytes (suc d) (b ∷ bytes_) =
    let width = ceil_div (length (b ∷ bytes_)) (suc d) in
    ok (padded width 0 (slices (length (b ∷ bytes_)) width (b ∷ bytes_)))

unfoldable pub parity_loop : List ℕ → List DataBlock → Result (List ℕ)
parity_loop parity [] = ok parity
parity_loop parity (block ∷ blocks) = elim (length block.data_ == length parity) [
  | false ↦ raise value_error
  | true ↦ parity_loop (zip_xor parity block.data_) blocks
]

unfoldable pub raid3_parity : List DataBlock → Result DataBlock
raid3_parity [] = raise index_error
raid3_parity (block ∷ blocks) =
    parity_loop (zeros (length block.data_)) (block ∷ blocks) >>= λ parity.
    ok (record { index = none; data_ = parity })

-- b''.join(block.data for block in blocks[:-1])
unfoldable pub join_bytes : List (Option DataBlock) → Result (List ℕ)
join_bytes [] = ok []
join_bytes (block ∷ []) = ok []
join_bytes (none ∷ next ∷ blocks) = raise attribute_error
join_bytes (some block ∷ next ∷ blocks) =
    join_bytes (next ∷ blocks) >>= λ rest. ok (block.data_ ++ rest)

-- .rstrip(b'\x00')
unfoldable pub rstrip : List ℕ → List ℕ
rstrip [] = []
rstrip (b ∷ bytes_) = elim (rstrip bytes_) [
  | [] ↦ if b == 0 then [] else b ∷ []
  | c ∷ rest ↦ b ∷ c ∷ rest
]

-- The loop of raid3_recover.
unfoldable pub recover_loop : Option (List ℕ) → List (Option DataBlock) → Option (List ℕ)
recover_loop recovered [] = recovered
recover_loop recovered (none ∷ blocks) = recover_loop recovered blocks
recover_loop none (some block ∷ blocks) =
    recover_loop (some (zip_xor (zeros (length block.data_)) block.data_)) blocks
recover_loop (some recovered) (some block ∷ blocks) =
    recover_loop (some (zip_xor recovered block.data_)) blocks

-- blocks[i] = block
abbrev pub set_at {ℓ} : {A : Type ℓ} → ℕ → A → List A → Result (List A)
set_at i a [] = raise index_error
set_at zero a (x ∷ xs) = ok (a ∷ xs)
set_at (suc i) a (x ∷ xs) = set_at i a xs >>= λ rest. ok (x ∷ rest)

module _ (encode : String → List ℕ) (decode : List ℕ → Result String) where
  unfoldable pub raid3_split : ℕ → String → Result (List DataBlock)
  raid3_split data_blocks value = split_bytes data_blocks (encode value)

  unfoldable pub raid3_join : List (Option DataBlock) → Result String
  raid3_join blocks = join_bytes blocks >>= λ joined. decode (rstrip joined)

  unfoldable pub raid3_recover : List (Option DataBlock) → ℕ → Result String
  raid3_recover blocks error_index =
      if suc error_index == length blocks
      then raid3_join blocks
      else (elim (recover_loop none blocks) [
        | none ↦ raise type_error
        | some recovered ↦
            set_at error_index (some (record { index = some error_index; data_ = recovered }))
              blocks
            >>= raid3_join
      ])
