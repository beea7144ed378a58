-- ===== src/Tests/ProxyCodec.antt =====
-- Encodings for the tests of the proxies: a number is so many letters a and a letter b.
use Prim.Native.Char.{code}
use distsys_course_work.Prelude.{
  ℕ, suc, zero, ◌+◌, ◌≡◌, refl, ap, ◌∙◌, String, Option, none, some, List, [], ◌∷◌, nat_eq, ◌==◌,
  if◌then◌else◌, arith,
}
use distsys_course_work.Runtime.{Result, ok, raise, value_error}
use distsys_course_work.KvProxy.Storage.{NodeBody, found}
use distsys_course_work.KvProxy.Raid3Proxy.{Codec}
use distsys_course_work.KvProxy.Raid3Proxy.Reading.{CodecLaws}

abbrev pub codes : String → List ℕ
codes String.[] = []
codes (String.◌∷◌ c s) = code c ∷ codes s

abbrev ones : ℕ → String → String
ones zero s = String.◌∷◌ "b" s
ones (suc n) s = String.◌∷◌ "a" (ones n s)

abbrev pub numbers : List ℕ → String
numbers [] = ""
numbers (n ∷ ns) = ones n (numbers ns)

abbrev read_numbers : ℕ → String → List ℕ
read_numbers n String.[] = []
read_numbers n (String.◌∷◌ c s) =
    let rest = read_numbers (if code c == 97 then suc n else 0) s in
    if code c == 97 then rest else n ∷ rest

abbrev pub with_index : Option ℕ → String → String
with_index none s = String.◌∷◌ "n" s
with_index (some i) s = ones i s

abbrev read_index : ℕ → String → Result (Option ℕ × String)
read_index n String.[] = raise value_error
read_index n (String.◌∷◌ c s) =
    let rest = read_index (suc n) s in
    if code c == 97 then rest else if code c == 98 then ok (some n, s) else ok (none, s)

abbrev pub jsonify : NodeBody → String
jsonify (found text) = String.◌∷◌ "v" text
jsonify _ = "error"

abbrev pub json_value : String → Result String
json_value String.[] = raise value_error
json_value (String.◌∷◌ c s) = if code c == 118 then ok s else raise value_error

-- Only the text of the tests is decoded.
abbrev pub codec : Codec
codec = record {
  encode = codes;
  decode = λ bytes_. ok "abcd";
  b64encode = numbers;
  b64decode = λ s. ok (read_numbers 0 s);
  dumps = with_index;
  loads = read_index 0;
  json_value = json_value;
}

read_numbers-ones : (n k : ℕ) (s : String) → read_numbers k (ones n s) ≡ (k + n) ∷ read_numbers 0 s
read_numbers-ones zero k s = ap (λ j. j ∷ read_numbers 0 s) (omega arith)
read_numbers-ones (suc n) k s =
    read_numbers-ones n (suc k) s ∙ ap (λ j. j ∷ read_numbers 0 s) (omega arith)

read_numbers-numbers : (ns : List ℕ) → read_numbers 0 (numbers ns) ≡ ns
read_numbers-numbers [] = refl
read_numbers-numbers (n ∷ ns) =
    read_numbers-ones n 0 (numbers ns)
    ∙ rw (read_numbers-numbers ns) (ap (λ j. j ∷ ns) (omega arith))

read_index-ones : (n k : ℕ) (s : String) → read_index k (ones n s) ≡ ok (some (k + n), s)
read_index-ones zero k s = ap (λ j. ok (some j, s)) (omega arith)
read_index-ones (suc n) k s = read_index-ones n (suc k) s ∙ ap (λ j. ok (some j, s)) (omega arith)

read_index-with_index : (i : Option ℕ) (s : String) → read_index 0 (with_index i s) ≡ ok (i, s)
read_index-with_index none s = refl
read_index-with_index (some i) s = read_index-ones i 0 s ∙ ap (λ j. ok (some j, s)) (omega arith)

pub codec-CodecLaws : CodecLaws codec
codec-CodecLaws = record {
  b64decode-b64encode = λ ns. ap ok (read_numbers-numbers ns);
  loads-dumps = read_index-with_index;
}
