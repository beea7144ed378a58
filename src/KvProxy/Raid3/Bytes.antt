-- ===== src/KvProxy/Raid3/Bytes.antt =====
-- Byte-wise exclusive or of byte strings of one length, and of a list of them.
use Prim.Native.Nat.{bit_xor}
use distsys_course_work.Prelude.{
  ℕ, zero, suc, ◌≡◌, refl, sym, ap, ◌∙◌, List, [], ◌∷◌, ◌++◌, All, length, arith,
}
use distsys_course_work.Prelude.Xor.{zero-xor, xor_comm, xor_assoc, xor_self, xor-zero}
use distsys_course_work.KvProxy.Raid3.{zeros, zip_xor}

pub length-zeros : (n : ℕ) → length (zeros n) ≡ n
length-zeros zero = refl
length-zeros (suc n) = omega (arith, length-zeros n)

xor_back : (a d : ℕ) → bit_xor a (bit_xor a d) ≡ d
xor_back a d = sym (xor_assoc a a d) ∙ rw (xor_self a) (zero-xor d)

xor_cancel : (a b d : ℕ) → bit_xor (bit_xor a b) (bit_xor (bit_xor a d) b) ≡ d
xor_cancel a b d =
    rw
      (
        xor_comm a b,
        xor_assoc b a (bit_xor (bit_xor a d) b),
        ← xor_assoc a (bit_xor a d) b,
        xor_back a d,
        xor_comm d b,
      )
      (xor_back b d)

pub length-zip_xor : (xs ys : List ℕ) → length ys ≡ length xs → length (zip_xor xs ys) ≡ length xs
unfolding zip_xor
length-zip_xor [] ys e = refl
length-zip_xor (x ∷ xs) [] e = absurd (omega arith)
length-zip_xor (x ∷ xs) (y ∷ ys) e = omega (arith, length-zip_xor xs ys (omega arith))

pub zeros-zip_xor : (xs : List ℕ) → zip_xor (zeros (length xs)) xs ≡ xs
unfolding zip_xor
zeros-zip_xor [] = refl
zeros-zip_xor (x ∷ xs) = rw (zero-xor x, zeros-zip_xor xs) refl

zip_xor-zeros : (xs : List ℕ) → zip_xor xs (zeros (length xs)) ≡ xs
unfolding zip_xor
zip_xor-zeros [] = refl
zip_xor-zeros (x ∷ xs) = rw (xor-zero x, zip_xor-zeros xs) refl

zip_xor_assoc : (xs ys zs : List ℕ) → zip_xor (zip_xor xs ys) zs ≡ zip_xor xs (zip_xor ys zs)
unfolding zip_xor
zip_xor_assoc [] ys zs = refl
zip_xor_assoc (x ∷ xs) [] zs = refl
zip_xor_assoc (x ∷ xs) (y ∷ ys) [] = refl
zip_xor_assoc (x ∷ xs) (y ∷ ys) (z ∷ zs) = rw (xor_assoc x y z, zip_xor_assoc xs ys zs) refl

zip_xor_cancel :
    (xs ys ds : List ℕ)
    → length ys ≡ length xs
    → length ds ≡ length xs
    → zip_xor (zip_xor xs ys) (zip_xor (zip_xor xs ds) ys) ≡ ds
unfolding zip_xor
zip_xor_cancel [] ys [] p q = refl
zip_xor_cancel [] ys (d ∷ ds) p q = absurd (omega arith)
zip_xor_cancel (x ∷ xs) [] ds p q = absurd (omega arith)
zip_xor_cancel (x ∷ xs) (y ∷ ys) [] p q = absurd (omega arith)
zip_xor_cancel (x ∷ xs) (y ∷ ys) (d ∷ ds) p q =
    rw (xor_cancel x y d, zip_xor_cancel xs ys ds (omega arith) (omega arith)) refl

-- The exclusive or of all.
abbrev pub xor_all : List ℕ → List (List ℕ) → List ℕ
xor_all acc [] = acc
xor_all acc (xs ∷ rest) = xor_all (zip_xor acc xs) rest

pub xor_all-append :
    (acc : List ℕ) (xs ys : List (List ℕ)) → xor_all acc (xs ++ ys) ≡ xor_all (xor_all acc xs) ys
xor_all-append acc [] ys = refl
xor_all-append acc (x ∷ xs) ys = xor_all-append (zip_xor acc x) xs ys

-- All of one length.
abbrev pub Wide : ℕ → List (List ℕ) → Type 0
Wide width = All (λ xs. length xs ≡ width)

pub length-xor_all :
    (width : ℕ) (acc : List ℕ) (xs : List (List ℕ))
    → length acc ≡ width
    → Wide width xs
    → length (xor_all acc xs) ≡ width
length-xor_all width acc [] p w = p
length-xor_all width acc (x ∷ xs) p w =
    length-xor_all width (zip_xor acc x) xs (length-zip_xor acc x (w.0 ∙ sym p) ∙ p) w.1

pub xor_all_acc :
    (width : ℕ) (acc : List ℕ) (xs : List (List ℕ))
    → length acc ≡ width
    → Wide width xs
    → xor_all acc xs ≡ zip_xor acc (xor_all (zeros width) xs)
xor_all_acc width acc [] p w = sym (ap (λ n. zip_xor acc (zeros n)) (sym p) ∙ zip_xor-zeros acc)
xor_all_acc width acc (x ∷ xs) p w =
    xor_all_acc width (zip_xor acc x) xs (length-zip_xor acc x (w.0 ∙ sym p) ∙ p) w.1
    ∙ zip_xor_assoc acc x (xor_all (zeros width) xs)
    ∙ ap (zip_xor acc) (
        sym (xor_all_acc width x xs w.0 w.1)
        ∙ ap (λ ys. xor_all ys xs)
            (sym (ap (λ n. zip_xor (zeros n) x) (sym w.0) ∙ zeros-zip_xor x)))

-- What is missing is the exclusive or of all the others and the parity.
pub xor_all_missing :
    (width : ℕ) (pre post : List (List ℕ)) (d : List ℕ)
    → Wide width pre
    → Wide width post
    → length d ≡ width
    → xor_all (zeros width) ((pre ++ post) ++ xor_all (zeros width) (pre ++ d ∷ post) ∷ []) ≡ d
xor_all_missing width pre post d wp wq ld =
    xor_all-append (zeros width) (pre ++ post) _
    ∙ rw (others, parity) (zip_xor_cancel before after d (sym (la ∙ sym lb)) (ld ∙ sym la))
  where
    before : List ℕ
    before = xor_all (zeros width) pre

    after : List ℕ
    after = xor_all (zeros width) post

    la : length before ≡ width
    la = length-xor_all width (zeros width) pre (length-zeros width) wp

    lb : length after ≡ width
    lb = length-xor_all width (zeros width) post (length-zeros width) wq

    others : xor_all (zeros width) (pre ++ post) ≡ zip_xor before after
    others = xor_all-append (zeros width) pre post ∙ xor_all_acc width before post la wq

    parity : xor_all (zeros width) (pre ++ d ∷ post) ≡ zip_xor (zip_xor before d) after
    parity =
        xor_all-append (zeros width) pre (d ∷ post)
        ∙ xor_all_acc width (zip_xor before d) post (length-zip_xor before d (ld ∙ sym la) ∙ la) wq
