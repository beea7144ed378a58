-- ===== src/KvProxy/Raid3/ShortSplit.antt =====
-- raid3_recover when the value was split into one block less than there are data nodes: the parity
-- then stands in the place of a data block, and the last node has nothing.
use distsys_course_work.Prelude.{
  ℕ, suc, ◌≡◌, refl, ◌∙◌, String, none, some, List, [], ◌∷◌, ◌++◌, map, length, length-append,
  length-map, nat_eq, arith,
}
use distsys_course_work.Runtime.{Result, ◌>>=◌}
use distsys_course_work.KvProxy.Raid3.{DataBlock, rstrip, raid3_join, raid3_recover}
use distsys_course_work.KvProxy.Raid3.Blocks.{bytes_of, concat}
use distsys_course_work.KvProxy.Raid3.Missing.{join_bytes-end}
use distsys_course_work.KvProxy.Raid3.Recovery.{recover-ends}

module _ (encode : String → List ℕ) (decode : List ℕ → Result String) where
  pub parity_is_read_as_value :
      (blocks : List DataBlock) (parity : DataBlock)
      → raid3_recover encode decode
          (map some (blocks ++ parity ∷ []) ++ none ∷ [])
          (suc (length blocks))
        ≡ decode (rstrip (concat (map bytes_of (blocks ++ parity ∷ []))))
  unfolding raid3_join
  parity_is_read_as_value blocks parity =
      recover-ends encode decode (map some (blocks ++ parity ∷ []) ++ none ∷ [])
        (suc (length blocks))
        ((nat_eq.same_iff _ _).1 (
          omega (
            arith,
            length-append (map some (blocks ++ parity ∷ [])) (none ∷ []),
            length-map some (blocks ++ parity ∷ []),
            length-append blocks (parity ∷ []),
          )))
      ∙ rw (join_bytes-end (blocks ++ parity ∷ []) none, ◌>>=◌) refl
