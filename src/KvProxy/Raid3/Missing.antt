-- ===== src/KvProxy/Raid3/Missing.antt =====
-- A missing block: what is read, and what the loop of raid3_recover makes of it.
use mathlib.Core.List.{append_assoc, map-append}
use distsys_course_work.Prelude.{
  ℕ, zero, suc, ◌<◌, ◌≡◌, refl, sym, ap, ◌∙◌, subst, Option, none, some, List, [], ◌∷◌, ◌++◌, map,
  All-append, length, length-append, length-map, nat_eq, arith,
}
use distsys_course_work.Runtime.{ok, ◌>>=◌}
use distsys_course_work.KvProxy.Raid3.{
  DataBlock, zeros, zip_xor, join_bytes, rstrip, recover_loop, set_at,
}
use distsys_course_work.KvProxy.Raid3.Bytes.{
  length-zeros, xor_all, xor_all_missing, length-xor_all, Wide,
}
use distsys_course_work.KvProxy.Raid3.Blocks.{bytes_of, concat}

-- The blocks as they are read when the one at a place is missing.
abbrev pub lose : ℕ → List DataBlock → List (Option DataBlock)
lose i [] = []
lose zero (x ∷ xs) = none ∷ map some xs
lose (suc i) (x ∷ xs) = some x ∷ lose i xs

-- The bytes of the blocks that are there.
pub present : List (Option DataBlock) → List (List ℕ)
present [] = []
present (none ∷ blocks) = present blocks
present (some block ∷ blocks) = block.data_ ∷ present blocks

recover_loop_acc :
    (acc : List ℕ) (blocks : List (Option DataBlock))
    → recover_loop (some acc) blocks ≡ some (xor_all acc (present blocks))
unfolding recover_loop present
recover_loop_acc acc [] = refl
recover_loop_acc acc (none ∷ blocks) = recover_loop_acc acc blocks
recover_loop_acc acc (some block ∷ blocks) = recover_loop_acc (zip_xor acc block.data_) blocks

recover_loop_lem :
    (width : ℕ) (blocks : List (Option DataBlock))
    → Wide width (present blocks)
    → 0 < length (present blocks)
    → recover_loop none blocks ≡ some (xor_all (zeros width) (present blocks))
unfolding recover_loop present
recover_loop_lem width [] w h = absurd (omega arith)
recover_loop_lem width (none ∷ blocks) w h = recover_loop_lem width blocks w h
recover_loop_lem width (some block ∷ blocks) w h =
    rw (w.0) (recover_loop_acc (zip_xor (zeros width) block.data_) blocks)

present-map : (blocks : List DataBlock) → present (map some blocks) ≡ map bytes_of blocks
unfolding present
present-map [] = refl
present-map (x ∷ blocks) = ap (◌∷◌ x.data_) (present-map blocks)

present-lose :
    (pre post : List DataBlock) (d : DataBlock)
    → present (lose (length pre) (pre ++ d ∷ post)) ≡ map bytes_of pre ++ map bytes_of post
unfolding present
present-lose [] post d = present-map post
present-lose (x ∷ pre) post d = ap (◌∷◌ x.data_) (present-lose pre post d)

pub set_at-lose :
    (pre post : List DataBlock) (d e : DataBlock)
    → set_at (length pre) (some e) (lose (length pre) (pre ++ d ∷ post))
      ≡ ok (map some (pre ++ e ∷ post))
set_at-lose [] post d e = refl
set_at-lose (x ∷ pre) post d e = rw (set_at-lose pre post d e, ◌>>=◌) refl

-- All but the last block, whatever it is.
pub join_bytes-end :
    (blocks : List DataBlock) (final : Option DataBlock)
    → join_bytes (map some blocks ++ final ∷ []) ≡ ok (concat (map bytes_of blocks))
unfolding join_bytes
join_bytes-end [] final = refl
join_bytes-end (x ∷ []) final = refl
join_bytes-end (x ∷ y ∷ blocks) final = rw (join_bytes-end (y ∷ blocks) final, ◌>>=◌) refl

pub length-lose : (i : ℕ) (blocks : List DataBlock) → length (lose i blocks) ≡ length blocks
length-lose i [] = refl
length-lose zero (x ∷ xs) = omega (arith, length-map some xs)
length-lose (suc i) (x ∷ xs) = omega (arith, length-lose i xs)

-- A block of the list, with those before and after it.
pub cut :
    (i : ℕ) (blocks : List DataBlock)
    → i < length blocks
    → (pre : List DataBlock) × (d : DataBlock) × (post : List DataBlock) × (blocks
        ≡ pre ++ d ∷ post)
      × (length pre ≡ i)
cut i [] h = absurd (omega arith)
cut zero (x ∷ xs) h = ([], x, xs, refl, refl)
cut (suc i) (x ∷ xs) h =
    let (pre, d, post, e, l) = cut i xs (omega arith) in
    (x ∷ pre, d, post, ap (◌∷◌ x) e, omega (arith, l))

pub rstrip-zeros : (bs : List ℕ) (k : ℕ) → rstrip (bs ++ zeros k) ≡ rstrip bs
unfolding rstrip
rstrip-zeros [] zero = refl
rstrip-zeros [] (suc k) = rw (rstrip-zeros [] k) refl
rstrip-zeros (b ∷ bs) k = rw (rstrip, rstrip-zeros bs k) refl

pub lose-last :
    (blocks : List DataBlock) (parity : DataBlock)
    → lose (length blocks) (blocks ++ parity ∷ []) ≡ map some blocks ++ none ∷ []
lose-last [] parity = refl
lose-last (x ∷ blocks) parity = ap (◌∷◌ (some x)) (lose-last blocks parity)

Wide-append :
    (width : ℕ) (xs ys : List (List ℕ)) → Wide width (xs ++ ys) → Wide width xs × Wide width ys
Wide-append width [] ys w = (tt, w)
Wide-append width (x ∷ xs) ys w = let (a, b) = Wide-append width xs ys w.1 in ((w.0, a), b)

-- What the loop of raid3_recover finds is the missing block.
pub recovered_lem :
    (width : ℕ) (pre post : List DataBlock) (d : DataBlock)
    → Wide width (map bytes_of (pre ++ d ∷ post))
    → (parity : DataBlock) → parity.data_ ≡ xor_all (zeros width) (map bytes_of (pre ++ d ∷ post))
    → recover_loop none (lose (length pre) (pre ++ d ∷ (post ++ parity ∷ []))) ≡ some d.data_
recovered_lem width pre post d w parity e =
    let w' : Wide width (map bytes_of pre ++ d.data_ ∷ map bytes_of post) =
      subst (Wide width) (map-append bytes_of pre (d ∷ post)) w in
    let (wp, (ld, wq)) = Wide-append width (map bytes_of pre) (d.data_ ∷ map bytes_of post) w' in
    let missing = xor_all_missing width (map bytes_of pre) (map bytes_of post) d.data_ wp wq ld in
    let lp : length parity.data_ ≡ width =
      ap length e ∙ length-xor_all width (zeros width) _ (length-zeros width) w in
    let there = subst (Wide width) (sym shape) (
      All-append (λ xs. length xs ≡ width) _ _ (All-append (λ xs. length xs ≡ width) _ _ wp wq)
        (lp, tt)) in
    recover_loop_lem width _ there (
      ground (
        arith,
        ap length shape,
        length-append (map bytes_of pre ++ map bytes_of post) (parity.data_ ∷ []),
      ))
    ∙ ap (λ bs. some (xor_all (zeros width) bs))
        (shape
          ∙ ap (λ b. (map bytes_of pre ++ map bytes_of post) ++ b ∷ [])
              (e ∙ ap (xor_all (zeros width)) (map-append bytes_of pre (d ∷ post))))
    ∙ ap some missing
  where
    shape :
        present (lose (length pre) (pre ++ d ∷ (post ++ parity ∷ [])))
        ≡ (map bytes_of pre ++ map bytes_of post) ++ parity.data_ ∷ []
    shape =
        present-lose pre (post ++ parity ∷ []) d
        ∙ ap (◌++◌ (map bytes_of pre)) (map-append bytes_of post (parity ∷ []))
        ∙ sym (append_assoc (map bytes_of pre) (map bytes_of post) (parity.data_ ∷ []))
