-- ===== src/Samples/Backend.antt =====
-- A toy cryptography with the sizes of the real one: secrets travel in the clear, and a checksum
-- stands for every hash and tag.
use kem_make.Base.{
  ℕ, zero, suc, ◌+◌, Bytes, true, ◌≡◌, refl, ap, sym, ◌*◌, Option, none, some, [], ◌∷◌, ◌++◌, arith,
  length, if◌then◌else◌, ◌==◌, nat_eq, nat_discrete,
}
use kem_make.Base.Dict.{or_else}
use kem_make.Wire.Algorithms.{mlkem_pk_len, mlkem_ct_len}
use kem_make.Session.Backend.{Backend, Env}
use kem_make.Session.Laws.{Laws}
use kem_make.Samples.Messages.{sample_asn1}

abbrev pub repeat : ℕ → ℕ → Bytes
repeat zero x = []
repeat (suc n) x = x ∷ repeat n x

pub length-repeat : (n x : ℕ) → length (repeat n x) ≡ n
length-repeat zero x = refl
length-repeat (suc n) x = ap suc (length-repeat n x)

unfoldable pub checksum : Bytes → ℕ
checksum [] = 7
checksum (x ∷ xs) = x + 3 * checksum xs

abbrev first_of : Bytes → ℕ
first_of [] = 0
first_of (x ∷ xs) = x

abbrev padded : ℕ → ℕ → Bytes
padded x zero = []
padded x (suc n) = x ∷ repeat n 0

abbrev opened : Bytes → Option Bytes
opened [] = none
opened (x ∷ xs) = some (x ∷ [])

abbrev pub unseal : ℕ → Bytes → Option Bytes
unseal tag [] = none
unseal tag (t ∷ text) = if t == tag then some text else none

unfoldable pub sample_backend : Backend
unfolding checksum
sample_backend = record {
  generate = λ level coins. coins;
  public_bytes = λ level seed. padded (first_of seed) (or_else (mlkem_pk_len level) 0);
  is_seed = λ level seed. true;
  encapsulate = λ level pk coins.
      some (first_of coins ∷ [], padded (first_of coins) (or_else (mlkem_ct_len level) 0));
  decapsulate = λ level seed ct. opened ct;
  hkdf = λ n salt info ikm. repeat n (checksum (salt ++ (info ++ ikm)));
  encrypt = λ name key nonce text ad. some (checksum (key ++ (nonce ++ ad)) ∷ text);
  decrypt = λ name key nonce text ad. unseal (checksum (key ++ (nonce ++ ad))) text;
  sha256 = λ text. checksum text ∷ [];
}

length-padded : (x n : ℕ) → length (padded x n) ≡ n
length-padded x zero = refl
length-padded x (suc n) = ap suc (length-repeat n 0)

pub sample-Laws : Laws sample_backend 768
unfolding sample_backend mlkem_pk_len mlkem_ct_len nat_discrete
sample-Laws = record {
  public_length = λ seed. ap some (sym (length-padded (first_of seed) 1184));
  kem = λ seed coins. record {
    secret = first_of coins ∷ [];
    octets = padded (first_of coins) 1088;
    made = refl;
    sized = ap some (sym (length-padded (first_of coins) 1088));
    opened = refl;
  };
  hkdf_length = λ n salt info ikm. length-repeat n (checksum (salt ++ (info ++ ikm)));
  aead = λ name oid key nonce text ad named kl nl tl. record {
    sealed = checksum (key ++ (nonce ++ ad)) ∷ text;
    made = refl;
    tagged = omega arith;
    opened = ground arith;
  };
}

unfoldable pub sample_env : Env
sample_env = record { asn1 = sample_asn1; backend = sample_backend }
