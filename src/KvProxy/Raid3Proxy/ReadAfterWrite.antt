-- ===== src/KvProxy/Raid3Proxy/ReadAfterWrite.antt =====
-- RAID3Proxy: a GET after a PUT, with every node there or with one of them failing.
use Prim.Native.String.{count}
use distsys_course_work.Prelude.{
  ℕ, zero, suc, ◌<◌, ◌≡◌, ◌≢◌, inl, inr, refl, sym, ap, ◌∙◌, subst, String, true, false, none, some,
  some-injective, List, [], ◌∷◌, ◌++◌, length, length-append, arith, get_elem?, lt_of_get_elem?,
  Bool-cases, ltb, if◌then◌else◌,
}
use distsys_course_work.Runtime.{Result, ok, ◌>>=◌, ok-injective}
use distsys_course_work.KvProxy.Http.{Http, Answer, answer, stored, small_body, value}
use distsys_course_work.KvProxy.Raid3.{DataBlock, raid3_split, raid3_parity, rstrip}
use distsys_course_work.KvProxy.Raid3.Recovery.{value_survives}
use distsys_course_work.KvProxy.Raid3Proxy.{Codec, Raid3Proxy, read_block, write_all, put, get}
use distsys_course_work.KvProxy.Raid3Proxy.Reading.{
  CodecLaws, HoldsAll, HoldsBut, get-HoldsAll, get-HoldsBut,
}
use distsys_course_work.KvProxy.Raid3Proxy.Writing.{Keeps, IsDistinct, write_all-HoldsAll}

module _ {W : Type 0} (http : Http W) (codec : Codec) (key : String) where
  -- A GET to each node but the one at a place is answered in `later` as in `w`.
  abbrev pub SameBut : ℕ → W → W → List (String × String) → Type 0
  SameBut i w later nodes =
      (j : ℕ) (n : String × String)
      → j ≢ i
      → get_elem? nodes j ≡ some n
      → http.get n.1 key later ≡ http.get n.1 key w

  later-HoldsAll :
      (w later : W) (nodes : List (String × String)) (blocks : List DataBlock)
      → HoldsAll http codec key w nodes blocks
      → ((j : ℕ) (n : String × String)
          → get_elem? nodes j ≡ some n
          → http.get n.1 key later ≡ http.get n.1 key w)
      → HoldsAll http codec key later nodes blocks
  later-HoldsAll w later [] [] h same = tt
  later-HoldsAll w later [] (b ∷ blocks) h same = h
  later-HoldsAll w later (n ∷ nodes) [] h same = h
  later-HoldsAll w later (n ∷ nodes) (b ∷ blocks) ((c, got, text), h) same =
      ((c, same 0 n refl ∙ got, text), later-HoldsAll w later nodes blocks h (λ j. same (suc j)))

  later-HoldsBut :
      (i : ℕ) (w later : W) (nodes : List (String × String)) (blocks : List DataBlock)
      (n : String × String)
      → HoldsAll http codec key w nodes blocks
      → SameBut i w later nodes
      → get_elem? nodes i ≡ some n
      → read_block http codec n.1 key later ≡ ok none
      → HoldsBut http codec key i later nodes blocks
  later-HoldsBut i w later [] blocks n h same e fails = absurd (ground arith)
  later-HoldsBut i w later (m ∷ nodes) [] n h same e fails = absurd h
  later-HoldsBut zero w later (m ∷ nodes) (b ∷ blocks) n (h, hs) same e fails = (
    subst (λ u. read_block http codec u.1 key later ≡ ok none) (sym (some-injective _ _ e)) fails,
    later-HoldsAll w later nodes blocks hs (λ j u. same (suc j) u (omega arith)),
  )
  later-HoldsBut (suc i) w later (m ∷ nodes) (b ∷ blocks) n ((c, got, text), hs) same e fails = (
    (c, same 0 m (omega arith) refl ∙ got, text),
    later-HoldsBut i w later nodes blocks n hs (λ j u ne. same (suc j) u (λ h. ne (omega arith))) e
        fails,
  )

  -- A PUT that is answered as stored has written all the blocks.
  put-stored :
      (self : Raid3Proxy) (text : String) (w w' : W) (blocks : List DataBlock) (parity : DataBlock)
      → put http codec self key text w ≡ ok (answer stored 200, w')
      → raid3_split codec.encode codec.decode self.divisor text ≡ ok blocks
      → raid3_parity blocks ≡ ok parity
      → write_all http codec self.nodes (blocks ++ parity ∷ []) key w ≡ ok (answer stored 200, w')
  unfolding put
  put-stored self text w w' blocks parity e splits par =
      elim (Bool-cases (ltb (count text) self.divisor)) [
        | inl small ↦ absurd (not_stored (too_small small ∙ e))
        | inr large ↦ sym (written large) ∙ e
      ]
    where
      not_stored :
          ¬ ◌≡◌ {A = Result (Answer × W)}
            (ok (answer (small_body self.divisor) 500, w))
            (ok (answer stored 200, w'))
      not_stored h = differ (ap (λ a. a.0.body) (ok-injective h))
        where
          differ : ¬ small_body self.divisor ≡ stored
          differ g = cc

      too_small :
          ltb (count text) self.divisor ≡ true
          → ok (answer (small_body self.divisor) 500, w) ≡ put http codec self key text w
      too_small small = rw (small, if◌then◌else◌) refl

      written :
          ltb (count text) self.divisor ≡ false
          → put http codec self key text w
            ≡ write_all http codec self.nodes (blocks ++ parity ∷ []) key w
      written large = rw (large, if◌then◌else◌, splits, ◌>>=◌, par) refl

  module _ (laws : CodecLaws codec) (keeps : Keeps http codec.json_value key) where
    -- What is read when all nodes, or all but one, answer as they did after a PUT.
    module _ (self : Raid3Proxy) (text : String) (w w' : W)
        (coded : codec.decode (codec.encode text) ≡ ok text) (distinct : IsDistinct self.nodes)
        (node_count : length self.nodes ≡ suc self.divisor) (some_data : 0 < self.divisor)
        (some_bytes : 0 < length (codec.encode text))
        (stripped : rstrip (codec.encode text) ≡ codec.encode text)
        (full : (blocks : List DataBlock)
          → raid3_split codec.encode codec.decode self.divisor text ≡ ok blocks
          → length blocks ≡ self.divisor)
        (written : put http codec self key text w ≡ ok (answer stored 200, w')) where
      pub raid3_read_after_write :
          (later : W)
          → ((j : ℕ) (n : String × String)
              → get_elem? self.nodes j ≡ some n
              → http.get n.1 key later ≡ http.get n.1 key w')
          → get http codec self key later ≡ ok (answer (value text) 200)
      raid3_read_after_write later same =
          let (blocks, parity, splits, par, joins, _) =
            value_survives codec.encode codec.decode text self.divisor coded some_data some_bytes
              stripped in
          let size : length self.nodes ≡ length (blocks ++ parity ∷ []) =
            omega (arith, length-append blocks (parity ∷ []), full blocks splits) in
          let (holds, _) =
            write_all-HoldsAll http codec key keeps self.nodes (blocks ++ parity ∷ []) w w' distinct
              size (put-stored self text w w' blocks parity written splits par) in
          get-HoldsAll http codec key laws later self (blocks ++ parity ∷ []) text
            (later-HoldsAll w' later self.nodes (blocks ++ parity ∷ []) holds same) joins

      pub raid3_read_with_one_failed :
          (later : W) (i : ℕ) (n : String × String)
          → get_elem? self.nodes i ≡ some n
          → SameBut i w' later self.nodes
          → read_block http codec n.1 key later ≡ ok none
          → get http codec self key later ≡ ok (answer (value text) 200)
      raid3_read_with_one_failed later i n at same fails =
          let (blocks, parity, splits, par, _, recovers) =
            value_survives codec.encode codec.decode text self.divisor coded some_data some_bytes
              stripped in
          let size : length self.nodes ≡ length (blocks ++ parity ∷ []) =
            omega (arith, length-append blocks (parity ∷ []), full blocks splits) in
          let (holds, _) =
            write_all-HoldsAll http codec key keeps self.nodes (blocks ++ parity ∷ []) w w' distinct
              size (put-stored self text w w' blocks parity written splits par) in
          get-HoldsBut http codec key laws i later self (blocks ++ parity ∷ []) text
            (later-HoldsBut i w' later self.nodes (blocks ++ parity ∷ []) n holds same at fails)
            (recovers i (omega (arith, lt_of_get_elem? self.nodes i n at)))
