-- ===== src/KvProxy/Raid3Proxy/Reading.antt =====
-- RAID3Proxy.get: what it reads from nodes that hold blocks, when at most one of them fails.
use mathlib.Core.List.{append_assoc, append-nil}
use distsys_course_work.Prelude.{
  ℕ, zero, suc, ◌+◌, ◌≡◌, refl, ◌∙◌, String, Option, none, some, List, [], ◌∷◌, ◌++◌, map, nat_eq,
  length, length-append, arith,
}
use distsys_course_work.Runtime.{Result, ok, ◌>>=◌}
use distsys_course_work.KvProxy.Http.{Http, answer, value}
use distsys_course_work.KvProxy.Raid3.{DataBlock, raid3_join, raid3_recover}
use distsys_course_work.KvProxy.Raid3.Missing.{lose}
use distsys_course_work.KvProxy.Raid3Proxy.{
  Codec, Raid3Proxy, dump_block, load_block, read_block, read_all, get,
}

-- Decoding undoes encoding.
pub record CodecLaws (codec : Codec) : Type 0 where
  pub b64decode-b64encode : (bytes_ : List ℕ) → codec.b64decode (codec.b64encode bytes_) ≡ ok bytes_
  pub loads-dumps :
      (index : Option ℕ) (text : String) → codec.loads (codec.dumps index text) ≡ ok (index, text)

at_place :
    (i : ℕ) {j : ℕ} (xs : List (Option DataBlock)) {ys : List (Option DataBlock)}
    → xs ≡ ys
    → i ≡ j
    → ◌≡◌ {A = Result (Option (List (Option DataBlock) × Option ℕ))}
        (ok (some (xs, some i)))
        (ok (some (ys, some j)))
at_place i xs e f = rw (e, f) refl

module _ {W : Type 0} (http : Http W) (codec : Codec) (key : String) where
  -- The node answers a GET with 200 and the block.
  abbrev pub Holds : W → String → DataBlock → Type 0
  Holds w url block =
      (c : String) × (http.get url key w ≡ ok (record { status_code = 200; content = c }))
      × (codec.json_value c ≡ ok (dump_block http codec block))

  -- Each node holds the block in its place.
  abbrev pub HoldsAll : W → List (String × String) → List DataBlock → Type 0
  HoldsAll w [] [] = Unit
  HoldsAll w [] (b ∷ blocks) = ⊥
  HoldsAll w (n ∷ nodes) [] = ⊥
  HoldsAll w (n ∷ nodes) (b ∷ blocks) = Holds w n.1 b × HoldsAll w nodes blocks

  -- The same for all nodes but the one at a place, which fails to answer with 200.
  abbrev pub HoldsBut : ℕ → W → List (String × String) → List DataBlock → Type 0
  HoldsBut i w [] blocks = ⊥
  HoldsBut i w (n ∷ nodes) [] = ⊥
  HoldsBut zero w (n ∷ nodes) (b ∷ blocks) =
      (read_block http codec n.1 key w ≡ ok none) × HoldsAll w nodes blocks
  HoldsBut (suc i) w (n ∷ nodes) (b ∷ blocks) = Holds w n.1 b × HoldsBut i w nodes blocks

  module _ (laws : CodecLaws codec) where
    read_block-Holds :
        (w : W) (url : String) (block : DataBlock)
        → Holds w url block
        → read_block http codec url key w ≡ ok (some block)
    unfolding read_block load_block
    read_block-Holds w url block (c, e, j) =
        rw
          (
            read_block,
            e,
            load_block,
            j,
            ◌>>=◌,
            laws.loads-dumps block.index (codec.b64encode block.data_),
            laws.b64decode-b64encode block.data_,
          )
          refl

    read_all-HoldsAll :
        (w : W) (nodes : List (String × String)) (blocks : List DataBlock)
        → HoldsAll w nodes blocks
        → (acc : List (Option DataBlock)) (e : Option ℕ)
        → read_all http codec nodes key acc e w ≡ ok (some (acc ++ map some blocks, e))
    unfolding read_all
    read_all-HoldsAll w [] [] h acc e = rw (append-nil acc) refl
    read_all-HoldsAll w [] (b ∷ blocks) h acc e = elim h [ ]
    read_all-HoldsAll w (n ∷ nodes) [] h acc e = elim h [ ]
    read_all-HoldsAll w (n ∷ nodes) (b ∷ blocks) h acc e =
        rw (read_all, read_block-Holds w n.1 b h.0, ◌>>=◌)
          (read_all-HoldsAll w nodes blocks h.1 (acc ++ some b ∷ []) e
            ∙ rw (append_assoc acc (some b ∷ []) (map some blocks)) refl)

    read_all-HoldsBut :
        (i : ℕ) (w : W) (nodes : List (String × String)) (blocks : List DataBlock)
        → HoldsBut i w nodes blocks
        → (acc : List (Option DataBlock))
        → read_all http codec nodes key acc none w
          ≡ ok (some (acc ++ lose i blocks, some (length acc + i)))
    unfolding read_all
    read_all-HoldsBut i w [] blocks h acc = elim h [ ]
    read_all-HoldsBut i w (n ∷ nodes) [] h acc = elim h [ ]
    read_all-HoldsBut zero w (n ∷ nodes) (b ∷ blocks) h acc =
        rw (read_all, h.0, ◌>>=◌)
          (read_all-HoldsAll w nodes blocks h.1 (acc ++ none ∷ []) (some (length acc))
            ∙ at_place (length acc) _ (append_assoc acc (none ∷ []) (map some blocks))
                (omega arith))
    read_all-HoldsBut (suc i) w (n ∷ nodes) (b ∷ blocks) h acc =
        rw (read_all, read_block-Holds w n.1 b h.0, ◌>>=◌)
          (read_all-HoldsBut i w nodes blocks h.1 (acc ++ some b ∷ [])
            ∙ at_place (length (acc ++ some b ∷ []) + i) _
                (append_assoc acc (some b ∷ []) (lose i blocks))
                (omega (arith, length-append acc (some b ∷ []))))

    pub get-HoldsAll :
        (w : W) (self : Raid3Proxy) (blocks : List DataBlock) (text : String)
        → HoldsAll w self.nodes blocks
        → raid3_join codec.encode codec.decode (map some blocks) ≡ ok text
        → get http codec self key w ≡ ok (answer (value text) 200)
    unfolding get
    get-HoldsAll w self blocks text h joined =
        rw (read_all-HoldsAll w self.nodes blocks h [] none, ◌>>=◌, joined) refl

    pub get-HoldsBut :
        (i : ℕ) (w : W) (self : Raid3Proxy) (blocks : List DataBlock) (text : String)
        → HoldsBut i w self.nodes blocks
        → raid3_recover codec.encode codec.decode (lose i blocks) i ≡ ok text
        → get http codec self key w ≡ ok (answer (value text) 200)
    unfolding get
    get-HoldsBut i w self blocks text h recovered = rw (from_start, ◌>>=◌, recovered) refl
      where
        from_start :
            read_all http codec self.nodes key [] none w ≡ ok (some (lose i blocks, some i))
        from_start =
            read_all-HoldsBut i w self.nodes blocks h [] ∙ at_place (0 + i) _ refl (omega arith)
