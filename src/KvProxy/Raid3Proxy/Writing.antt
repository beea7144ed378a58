-- ===== src/KvProxy/Raid3Proxy/Writing.antt =====
-- RAID3Proxy.put: what the nodes hold when it has answered 200, and a GET after that.
use distsys_course_work.Prelude.{
  ◌≡◌, ◌≢◌, inl, inr, refl, sym, ap, ◌∙◌, String, true, false, List, [], ◌∷◌, nat_eq, ◌==◌, length,
  arith, All, Bool-cases,
}
use distsys_course_work.Runtime.{Error, Result, ok, raise, ◌>>=◌, Result-cases, ok-injective}
use distsys_course_work.KvProxy.Http.{Http, Response, Answer, answer, stored, write_error}
use distsys_course_work.KvProxy.Raid3.{DataBlock}
use distsys_course_work.KvProxy.Raid3Proxy.{Codec, dump_block, write_all}
use distsys_course_work.KvProxy.Raid3Proxy.Reading.{HoldsAll}

-- What a node that answers a POST with 200 promises, for one key: a GET then gives the value, until
-- the next POST to that node.
pub record Keeps {W : Type 0} (http : Http W) (json_value : String → Result String) (key : String)
    : Type 0 where
  pub kept :
      (url text : String) (w w' : W) (r : Response)
      → http.post url key text w ≡ ok (r, w')
      → r.status_code ≡ 200
      → (c : String) × (http.get url key w' ≡ ok (record { status_code = 200; content = c }))
        × (json_value c ≡ ok text)
  pub apart :
      (url other text : String) (w w' : W) (r : Response)
      → url ≢ other
      → http.post url key text w ≡ ok (r, w')
      → http.get other key w' ≡ http.get other key w

-- No url stands twice.
abbrev pub IsDistinct : List (String × String) → Type 0
IsDistinct [] = Unit
IsDistinct (n ∷ nodes) = All (λ m. n.1 ≢ m.1) nodes × IsDistinct nodes

module _ {W : Type 0} (http : Http W) (codec : Codec) (key : String)
    (keeps : Keeps http codec.json_value key) where
  write_all-next :
      (name url : String) (nodes : List (String × String)) (b : DataBlock) (blocks : List DataBlock)
      (w w1 : W) (r : Response)
      → http.post url key (dump_block http codec b) w ≡ ok (r, w1)
      → (r.status_code == 200) ≡ true
      → write_all http codec ((name, url) ∷ nodes) (b ∷ blocks) key w
        ≡ write_all http codec nodes blocks key w1
  unfolding write_all
  write_all-next name url nodes b blocks w w1 r p t = rw (p, ◌>>=◌, t) refl

  write_all-stops :
      (name url : String) (nodes : List (String × String)) (b : DataBlock) (blocks : List DataBlock)
      (w w1 : W) (r : Response)
      → http.post url key (dump_block http codec b) w ≡ ok (r, w1)
      → (r.status_code == 200) ≡ false
      → write_all http codec ((name, url) ∷ nodes) (b ∷ blocks) key w
        ≡ ok (answer (write_error url) 500, w1)
  unfolding write_all
  write_all-stops name url nodes b blocks w w1 r p t = rw (p, ◌>>=◌, t) refl

  write_all-raises :
      (name url : String) (nodes : List (String × String)) (b : DataBlock) (blocks : List DataBlock)
      (w : W) (e : Error)
      → http.post url key (dump_block http codec b) w ≡ raise e
      → write_all http codec ((name, url) ∷ nodes) (b ∷ blocks) key w ≡ raise e
  unfolding write_all
  write_all-raises name url nodes b blocks w e p = rw (p, ◌>>=◌) refl

  -- The first POST of a loop that ends well was answered with 200.
  first_stored :
      (name url : String) (nodes : List (String × String)) (b : DataBlock) (blocks : List DataBlock)
      (w w' : W)
      → write_all http codec ((name, url) ∷ nodes) (b ∷ blocks) key w ≡ ok (answer stored 200, w')
      → (r : Response) × (w1 : W) × (http.post url key (dump_block http codec b) w ≡ ok (r, w1))
        × (r.status_code ≡ 200)
        × (write_all http codec nodes blocks key w1 ≡ ok (answer stored 200, w'))
  first_stored name url nodes b blocks w w' e =
      elim (Result-cases (http.post url key (dump_block http codec b) w)) [
        | inl ((r, w1), p) ↦ elim (Bool-cases (r.status_code == 200)) [
          | inl t ↦ (
            r,
            w1,
            p,
            (nat_eq.same_iff _ _).0 t,
            sym (write_all-next name url nodes b blocks w w1 r p t) ∙ e,
          )
          | inr t ↦
              let other = sym (write_all-stops name url nodes b blocks w w1 r p t) ∙ e in
              absurd (not_stored url (ap (λ a. a.0.body) (ok-injective other)))
        ]
        | inr (err, p) ↦ absurd (
            not_ok err (answer stored 200, w')
              (sym (write_all-raises name url nodes b blocks w err p) ∙ e))
      ]
    where
      not_stored : (u : String) → ¬ write_error u ≡ stored
      not_stored u h = cc

      not_ok : (er : Error) (a : Answer × W) → ¬ ◌≡◌ {A = Result (Answer × W)} (raise er) (ok a)
      not_ok er a h = cc

  pub write_all-HoldsAll :
      (nodes : List (String × String)) (blocks : List DataBlock) (w w' : W)
      → IsDistinct nodes
      → length nodes ≡ length blocks
      → write_all http codec nodes blocks key w ≡ ok (answer stored 200, w')
      → HoldsAll http codec key w' nodes blocks
        × ((other : String)
            → All (λ m. other ≢ m.1) nodes
            → http.get other key w' ≡ http.get other key w)
  unfolding write_all
  write_all-HoldsAll [] [] w w' d l e =
      (tt, λ other no. ap (http.get other key) (sym (ap (λ a. a.1) (ok-injective e))))
  write_all-HoldsAll [] (b ∷ blocks) w w' d l e = absurd (omega arith)
  write_all-HoldsAll (n ∷ nodes) [] w w' d l e = absurd (omega arith)
  write_all-HoldsAll ((name, url) ∷ nodes) (b ∷ blocks) w w' d l e =
      let (r, w1, p, status, rest) = first_stored name url nodes b blocks w w' e in
      let (holds, same) = write_all-HoldsAll nodes blocks w1 w' d.1 (omega arith) rest in
      let (c, got, text) = keeps.kept url (dump_block http codec b) w w1 r p status in
      (
        ((c, same url d.0 ∙ got, text), holds),
        λ other no.
            same other no.1
            ∙ keeps.apart url other (dump_block http codec b) w w1 r (λ h. no.0 (sym h)) p,
      )
