-- ===== src/Samples/Text.antt =====
-- Texts as the numbers of their characters.
use Prim.Native.Char.{Char, char, code, nul, IsLt, IsScalar}
use Prim.Native.Nat.{compare, Ordering}
use text.Mathlib.TextEquality.{Char-path}
use kem_make.Base.{ℕ, String, Bytes, ◌≡◌, refl, [], ◌∷◌, codes}
use kem_make.Samples.Encoder.{Encoder, octets, represented}

abbrev Both : Ordering → Ordering → Type 0
Both Ordering.lt o = IsLt o
Both Ordering.eq _ = ⊥
Both Ordering.gt _ = ⊥

abbrev Scalar : Ordering → Ordering → Ordering → Type 0
Scalar Ordering.lt _ _ = Unit
Scalar Ordering.eq o p = Both o p
Scalar Ordering.gt o p = Both o p

dec_lt : (o : Ordering) → Dec (IsLt o)
dec_lt Ordering.lt = yes tt
dec_lt Ordering.eq = no (λ h. h)
dec_lt Ordering.gt = no (λ h. h)

dec_both : (o p : Ordering) → Dec (Both o p)
dec_both Ordering.lt p = dec_lt p
dec_both Ordering.eq p = no (λ h. h)
dec_both Ordering.gt p = no (λ h. h)

dec_scalar : (o p q : Ordering) → Dec (Scalar o p q)
dec_scalar Ordering.lt p q = yes tt
dec_scalar Ordering.eq p q = dec_both p q
dec_scalar Ordering.gt p q = dec_both p q

abbrev char_if : (n : ℕ) → Dec (IsScalar n) → Char
char_if n (yes h) = char n h
char_if n (no h) = nul

unfoldable pub of_code : ℕ → Char
unfolding dec_scalar dec_both dec_lt
of_code n = char_if n (dec_scalar (compare n 55296) (compare 57343 n) (compare n 1114112))

code-char_if : (n : ℕ) (h : IsScalar n) (d : Dec (IsScalar n)) → char_if n d ≡ char n h
code-char_if n h (yes k) = Char-path (char n k) (char n h) refl
code-char_if n h (no k) = absurd (k h)

of_code-code : (c : Char) → of_code (code c) ≡ c
unfolding of_code
of_code-code (char n h) =
    code-char_if n h (dec_scalar (compare n 55296) (compare 57343 n) (compare n 1114112))

unfoldable pub of_codes : Bytes → String
of_codes [] = String.[]
of_codes (n ∷ l) = String.◌∷◌ (of_code n) (of_codes l)

pub of_codes-codes : (s : String) → of_codes (codes s) ≡ s
unfolding of_codes
of_codes-codes String.[] = refl
of_codes-codes (String.◌∷◌ c s) = λ i. String.◌∷◌ (of_code-code c i) (of_codes-codes s i)

unfoldable pub char_text : Encoder String
unfolding of_codes of_code
char_text = represented of_codes codes of_codes-codes octets
