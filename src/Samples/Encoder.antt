-- ===== src/Samples/Encoder.antt =====
-- An encoder with a parser, piece by piece: what was written in front of a rest is read back, and
-- the rest is left.
use kem_make.Base.{ℕ, zero, suc, Bytes, ◌≡◌, refl, Option, none, some, List, [], ◌∷◌, arith, length}
use kem_make.Errors.{value_error}
use kem_make.Wire.{Der, RoundTrips}

pub record Encoder (A : Type 0) : Type 0 where
  pub put : A → Bytes → Bytes
  pub take : Bytes → Option (A × Bytes)
  pub law : (a : A) (rest : Bytes) → take (put a rest) ≡ some (a, rest)

abbrev take_token : Bytes → Option (ℕ × Bytes)
take_token [] = none
take_token (n ∷ rest) = some (n, rest)

unfoldable pub token : Encoder ℕ
token = record { put = λ n rest. n ∷ rest; take = take_token; law = λ n rest. refl }

module _ {A B : Type 0} where
  -- the second reader goes on where the first stopped
  abbrev take_both : (Bytes → Option (B × Bytes)) → Option (A × Bytes) → Option ((A × B) × Bytes)
  take_both next none = none
  take_both next (some (a, rest)) = elim (next rest) [
    | none ↦ none
    | some (b, end) ↦ some ((a, b), end)
  ]

  pub pair-law :
      (ea : Encoder A) (eb : Encoder B) (p : A × B) (rest : Bytes)
      → take_both eb.take (ea.take (ea.put p.0 (eb.put p.1 rest))) ≡ some (p, rest)
  pair-law ea eb p rest = ground (arith, ea.law p.0 (eb.put p.1 rest), eb.law p.1 rest)

  unfoldable pub pair : Encoder A → Encoder B → Encoder (A × B)
  pair ea eb = record {
    put = λ p rest. ea.put p.0 (eb.put p.1 rest);
    take = λ l. take_both eb.take (ea.take l);
    law = pair-law ea eb;
  }

  abbrev pub take_as : (A → B) → Option (A × Bytes) → Option (B × Bytes)
  take_as make none = none
  take_as make (some (a, rest)) = some (make a, rest)

  pub represented-law :
      (make : A → B) (view : B → A) (back : (b : B) → make (view b) ≡ b) (ea : Encoder A) (b : B)
      (rest : Bytes)
      → take_as make (ea.take (ea.put (view b) rest)) ≡ some (b, rest)
  represented-law make view back ea b rest = ground (arith, ea.law (view b) rest, back b)

  -- A type that another one represents.
  unfoldable pub represented :
      (make : A → B) (view : B → A) → ((b : B) → make (view b) ≡ b) → Encoder A → Encoder B
  represented make view back ea = record {
    put = λ b rest. ea.put (view b) rest;
    take = λ l. take_as make (ea.take l);
    law = represented-law make view back ea;
  }

module _ {A : Type 0} (ea : Encoder A) where
  abbrev put_all : List A → Bytes → Bytes
  put_all [] rest = rest
  put_all (x ∷ xs) rest = ea.put x (put_all xs rest)

  abbrev take_next :
      Option (A × Bytes) → (Bytes → Option (List A × Bytes)) → Option (List A × Bytes)
  take_next none next = none
  take_next (some (a, rest)) next = elim (next rest) [
    | none ↦ none
    | some (more, end) ↦ some (a ∷ more, end)
  ]

  unfoldable pub take_all : ℕ → Bytes → Option (List A × Bytes)
  take_all zero l = some ([], l)
  take_all (suc n) l = take_next (ea.take l) (take_all n)

  pub take_all-put_all :
      (xs : List A) (rest : Bytes) → take_all (length xs) (put_all xs rest) ≡ some (xs, rest)
  unfolding take_all
  take_all-put_all [] rest = refl
  take_all-put_all (x ∷ xs) rest =
      ground (arith, ea.law x (put_all xs rest), take_all-put_all xs rest)

  abbrev take_list : Bytes → Option (List A × Bytes)
  take_list [] = none
  take_list (n ∷ rest) = take_all n rest

  unfoldable pub list : Encoder (List A)
  unfolding take_all
  list = record {
    put = λ xs rest. length xs ∷ put_all xs rest;
    take = take_list;
    law = take_all-put_all;
  }

  abbrev take_option : Bytes → Option (Option A × Bytes)
  take_option [] = none
  take_option (zero ∷ rest) = some (none, rest)
  take_option (suc n ∷ rest) = elim (ea.take rest) [
    | none ↦ none
    | some (a, end) ↦ some (some a, end)
  ]

  abbrev put_option : Option A → Bytes → Bytes
  put_option none rest = 0 ∷ rest
  put_option (some a) rest = 1 ∷ ea.put a rest

  pub option-law : (o : Option A) (rest : Bytes) → take_option (put_option o rest) ≡ some (o, rest)
  option-law none rest = refl
  option-law (some a) rest = ground (arith, ea.law a rest)

  unfoldable pub option : Encoder (Option A)
  option = record { put = put_option; take = take_option; law = option-law }

unfoldable pub octets : Encoder Bytes
octets = list token

abbrev whole : {A : Type 0} → Option (A × Bytes) → Option A
whole none = none
whole (some (a, [])) = some a
whole (some (a, x ∷ rest)) = none

-- The encoder of a whole message.
unfoldable pub der : {A : Type 0} → Encoder A → Der A
der e = record {
  parse = λ l. whole (e.take l);
  refusal = λ l. value_error;
  encode = λ a. e.put a [];
}

pub der-RoundTrips : {A : Type 0} (e : Encoder A) → RoundTrips (der e)
unfolding der
der-RoundTrips e a = ground (arith, e.law a [])
