-- ===== src/KvProxy/Raid3/Recovery.antt =====
-- raid3_recover and raid3_join: the value survives the loss of any one block.
use mathlib.Core.List.{append_assoc, map-append}
use distsys_course_work.Prelude.{
  ℕ, zero, suc, ◌<◌, ◌≡◌, refl, sym, ap, ◌∙◌, subst, inl, inr, true, false, Bool-cases, String,
  Option, none, some, List, [], ◌∷◌, ◌++◌, map, length, length-append, nat_eq, ◌==◌, leb, arith,
  if◌then◌else◌,
}
use distsys_course_work.Runtime.{Result, ok, ◌>>=◌}
use distsys_course_work.KvProxy.Raid3.{
  DataBlock, zeros, rstrip, recover_loop, set_at, raid3_split, raid3_parity, raid3_join,
  raid3_recover, split_bytes,
}
use distsys_course_work.KvProxy.Raid3.Bytes.{xor_all, Wide}
use distsys_course_work.KvProxy.Raid3.Blocks.{bytes_of, concat, split_bytes_lem, raid3_parity_lem}
use distsys_course_work.KvProxy.Raid3.Missing.{
  lose, recovered_lem, lose-last, set_at-lose, join_bytes-end, length-lose, cut, rstrip-zeros,
}

module _ (encode : String → List ℕ) (decode : List ℕ → Result String)
    (blocks : List (Option DataBlock)) (i : ℕ) where
  pub recover-ends :
      (suc i == length blocks) ≡ true
      → raid3_recover encode decode blocks i ≡ raid3_join encode decode blocks
  unfolding raid3_recover
  recover-ends test = rw (test, if◌then◌else◌) refl

  recover-sets :
      (bs : List ℕ) (filled : List (Option DataBlock))
      → (suc i == length blocks) ≡ false
      → recover_loop none blocks ≡ some bs
      → set_at i (some (record { index = some i; data_ = bs })) blocks ≡ ok filled
      → raid3_recover encode decode blocks i ≡ raid3_join encode decode filled
  unfolding raid3_recover
  recover-sets bs filled test found set = rw (test, if◌then◌else◌, found, set, ◌>>=◌) refl

module _ (encode : String → List ℕ) (decode : List ℕ → Result String) (value : String)
    (law : decode (encode value) ≡ ok value) (stripped : rstrip (encode value) ≡ encode value) where
  joined_value :
      (blocks : List DataBlock) (final : Option DataBlock) (k : ℕ)
      → concat (map bytes_of blocks) ≡ encode value ++ zeros k
      → raid3_join encode decode (map some blocks ++ final ∷ []) ≡ ok value
  unfolding raid3_join
  joined_value blocks final k e =
      rw (join_bytes-end blocks final, ◌>>=◌, e, rstrip-zeros (encode value) k, stripped) law

  recover_last :
      (blocks : List DataBlock) (parity : DataBlock) (k : ℕ)
      → concat (map bytes_of blocks) ≡ encode value ++ zeros k
      → raid3_recover encode decode (lose (length blocks) (blocks ++ parity ∷ [])) (length blocks)
        ≡ ok value
  recover_last blocks parity k e =
      recover-ends encode decode (lose (length blocks) (blocks ++ parity ∷ [])) (length blocks) (
        (nat_eq.same_iff _ _).1 (
          omega (
            arith,
            length-lose (length blocks) (blocks ++ parity ∷ []),
            length-append blocks (parity ∷ []),
          )))
      ∙ ap (raid3_join encode decode) (lose-last blocks parity)
      ∙ joined_value blocks none k e

  recover_inside :
      (width : ℕ) (pre post : List DataBlock) (d parity : DataBlock) (k : ℕ)
      → Wide width (map bytes_of (pre ++ d ∷ post))
      → parity.data_ ≡ xor_all (zeros width) (map bytes_of (pre ++ d ∷ post))
      → concat (map bytes_of (pre ++ d ∷ post)) ≡ encode value ++ zeros k
      → raid3_recover encode decode
          (lose (length pre) ((pre ++ d ∷ post) ++ parity ∷ []))
          (length pre)
        ≡ ok value
  recover_inside width pre post d parity k w p e =
      rw (append_assoc (pre) (d ∷ post) (parity ∷ [])) (
        recover-sets encode decode (lose (length pre) (pre ++ d ∷ (post ++ parity ∷ [])))
          (length pre) d.data_ _ not_last (recovered_lem width pre post d w parity p)
          (set_at-lose pre (post ++ parity ∷ []) d filled)
        ∙ ap (raid3_join encode decode) ends
        ∙ joined_value (pre ++ filled ∷ post) (some parity) k (same_bytes ∙ e))
    where
      filled : DataBlock
      filled = record { index = some (length pre); data_ = d.data_ }

      not_last :
          (suc (length pre) == length (lose (length pre) (pre ++ d ∷ (post ++ parity ∷ []))))
          ≡ false
      not_last = ground (
        arith,
        length-lose (length pre) (pre ++ d ∷ (post ++ parity ∷ [])),
        length-append pre (d ∷ (post ++ parity ∷ [])),
        length-append post (parity ∷ []),
      )

      ends :
          map some (pre ++ filled ∷ (post ++ parity ∷ []))
          ≡ map some (pre ++ filled ∷ post) ++ some parity ∷ []
      ends =
          ap (map some) (sym (append_assoc (pre) (filled ∷ post) (parity ∷ [])))
          ∙ map-append some (pre ++ filled ∷ post) (parity ∷ [])

      same_bytes :
          concat (map bytes_of (pre ++ filled ∷ post)) ≡ concat (map bytes_of (pre ++ d ∷ post))
      same_bytes =
          ap concat
            (map-append bytes_of pre (filled ∷ post) ∙ sym (map-append bytes_of pre (d ∷ post)))

  any_lost :
      (width : ℕ) (blocks : List DataBlock) (parity : DataBlock) (k : ℕ)
      → Wide width (map bytes_of blocks)
      → parity.data_ ≡ xor_all (zeros width) (map bytes_of blocks)
      → concat (map bytes_of blocks) ≡ encode value ++ zeros k
      → (i : ℕ) → i < length (blocks ++ parity ∷ [])
      → raid3_recover encode decode (lose i (blocks ++ parity ∷ [])) i ≡ ok value
  any_lost width blocks parity k w p e i lt = elim (Bool-cases (leb (length blocks) i)) [
    | inl last ↦
        let here : length blocks ≡ i = ground (arith, length-append blocks (parity ∷ [])) in
        subst (λ j. raid3_recover encode decode (lose j (blocks ++ parity ∷ [])) j ≡ ok value) here
          (recover_last blocks parity k e)
    | inr before ↦
        let (pre, d, post, same, place) = cut i blocks (ground arith) in
        subst (λ j. raid3_recover encode decode (lose j (blocks ++ parity ∷ [])) j ≡ ok value) place
          (subst
            (λ bs.
              raid3_recover encode decode (lose (length pre) (bs ++ parity ∷ [])) (length pre)
              ≡ ok value)
            (sym same)
            (recover_inside width pre post d parity k
              (subst (λ bs. Wide width (map bytes_of bs)) same w)
              (p ∙ ap (λ bs. xor_all (zeros width) (map bytes_of bs)) same)
              (sym (ap (λ bs. concat (map bytes_of bs)) same) ∙ e)))
  ]

split_bytes_some :
    (n : ℕ) (bytes_ : List ℕ)
    → 0 < n
    → 0 < length bytes_
    → (blocks : List DataBlock) × (width k : ℕ) × (split_bytes n bytes_ ≡ ok blocks)
      × Wide width (map bytes_of blocks)
      × (concat (map bytes_of blocks) ≡ bytes_ ++ zeros k)
      × (0 < length blocks)
split_bytes_some zero bytes_ p q = absurd (omega arith)
split_bytes_some (suc d) [] p q = absurd (omega arith)
split_bytes_some (suc d) (b ∷ bs) p q = split_bytes_lem d b bs

module _ (encode : String → List ℕ) (decode : List ℕ → Result String) where
  -- A value whose bytes are not empty and do not end in a zero, as RAID3Proxy stores it: raid3_split
  -- and raid3_parity raise nothing, raid3_join of the blocks and the parity gives the value, and so
  -- does raid3_recover when any one of them, the parity included, is missing.
  pub value_survives :
      (value : String) (data_blocks : ℕ)
      → decode (encode value) ≡ ok value
      → 0 < data_blocks
      → 0 < length (encode value)
      → rstrip (encode value) ≡ encode value
      → (blocks : List DataBlock) × (parity : DataBlock) × (raid3_split encode decode data_blocks
            value
          ≡ ok blocks)
        × (raid3_parity blocks ≡ ok parity)
        × (raid3_join encode decode (map some (blocks ++ parity ∷ [])) ≡ ok value)
        × ((i : ℕ)
            → i < length (blocks ++ parity ∷ [])
            → raid3_recover encode decode (lose i (blocks ++ parity ∷ [])) i ≡ ok value)
  unfolding raid3_split
  value_survives value data_blocks law some_blocks some_bytes stripped =
      let (blocks, width, k, splits, wide, joined, some_block) =
        split_bytes_some data_blocks (encode value) some_blocks some_bytes in
      let parity : DataBlock = record {
        index = none;
        data_ = xor_all (zeros width) (map bytes_of blocks);
      } in
      (
        blocks,
        parity,
        splits,
        raid3_parity_lem width blocks some_block wide,
        rw (map-append some blocks (parity ∷ []))
            (joined_value encode decode value law stripped blocks (some parity) k joined),
        λ i lt.
            any_lost encode decode value law stripped width blocks parity k wide refl joined i lt,
      )
