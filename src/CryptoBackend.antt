-- ===== src/CryptoBackend.antt =====
-- src/kem_make/crypto_backend.py: the round trips that an application tries at its start. The
-- `cryptography` package is a parameter; `none` stands for an exception of it.
pub mod Checks
mod Tests
use kem_make.Base.{
  ℕ, String, Bytes, Bool, true, false, not, Option, none, some, List, [], ◌∷◌, ◌==◌, nat_eq,
  bytes_eq, string_eq, if◌then◌else◌, length, codes, replicate,
}
use kem_make.Errors.{
  Result, ok, err, or_raise, raise_if, raise_instead, ◌>>=◌, ◌>>◌, crypto_backend_unsupported,
}
use kem_make.Wire.Messages.{KemPublicKey}
use kem_make.Wire.{build_public_key}

-- What the installed package does, with the randomness that it draws fixed.
pub record Primitives : Type 0 where
  -- the seed of `MLKEM…PrivateKey.generate()`; there is none without such a class
  pub generate : ℕ → Option Bytes
  pub public_bytes : ℕ → Bytes → Option Bytes
  pub encapsulate : ℕ → Bytes → Option (Bytes × Bytes)
  pub decapsulate : ℕ → Bytes → Bytes → Option Bytes
  -- `generate_key`, with the bit length where the class takes one
  pub generate_key : String → Option ℕ → Option Bytes
  -- from key, nonce and text, without associated data
  pub encrypt : String → Bytes → Bytes → Bytes → Option Bytes
  pub decrypt : String → Bytes → Bytes → Bytes → Option Bytes
  -- HKDF-SHA256 without salt, from length, info and key material
  pub hkdf : ℕ → Bytes → Bytes → Option Bytes

-- MLKEM_BACKEND_CLASSES and AEAD_BACKEND_CLASSES
abbrev pub mlkem_levels : List ℕ
mlkem_levels = 768 ∷ 1024 ∷ []

abbrev pub aead_classes : List String
aead_classes = "AES-256-GCM" ∷ "ChaCha20-Poly1305" ∷ []

-- the length in HKDF_BACKEND_PROFILES
abbrev pub hkdf_length : ℕ
hkdf_length = 32

abbrev pub zeros : ℕ → Bytes
zeros n = replicate n 0

abbrev pub check_text : Bytes
check_text = codes "capability-check"

-- `for item in …: check(item)`
unfoldable pub check_each : {A : Type 0} → (A → Result (Unit {0})) → List A → Result (Unit {0})
check_each check [] = ok tt
check_each check (x ∷ xs) = check x >> check_each check xs

module _ (p : Primitives) where
  -- the `try` of `_check_mlkem`: the secret, and what was recovered
  unfoldable pub try_mlkem : ℕ → Option (Bytes × Bytes)
  try_mlkem level = elim (p.generate level) [
    | none ↦ none
    | some seed ↦ elim (p.public_bytes level seed) [
      | none ↦ none
      | some pub_bytes ↦ elim (p.encapsulate level pub_bytes) [
        | none ↦ none
        | some sealed ↦ elim (p.decapsulate level seed sealed.1) [
          | none ↦ none
          | some recovered ↦ some (sealed.0, recovered)
        ]
      ]
    ]
  ]

  unfoldable pub check_mlkem : ℕ → Result (Unit {0})
  check_mlkem level = do
    (shared_secret, recovered) ← or_raise (try_mlkem level) crypto_backend_unsupported
    raise_if (not (shared_secret == recovered)) crypto_backend_unsupported

  -- `key_kwargs` of `check_backend`
  abbrev pub bit_length : String → Option ℕ
  bit_length algorithm = if algorithm == "AES-256-GCM" then some 256 else none

  -- the `try` of `_check_aead`
  unfoldable pub try_aead : String → Option Bytes
  try_aead name = elim (p.generate_key name (bit_length name)) [
    | none ↦ none
    | some key ↦ elim (p.encrypt name key (zeros 12) check_text) [
      | none ↦ none
      | some ct ↦ p.decrypt name key (zeros 12) ct
    ]
  ]

  unfoldable pub check_aead : String → Result (Unit {0})
  check_aead name = do
    recovered ← or_raise (try_aead name) crypto_backend_unsupported
    raise_if (not (recovered == check_text)) crypto_backend_unsupported

  unfoldable pub check_hkdf : Result (Unit {0})
  check_hkdf = do
    derived ← or_raise (p.hkdf hkdf_length check_text (zeros 32)) crypto_backend_unsupported
    raise_if (not (length derived == 32)) crypto_backend_unsupported

  unfoldable pub create_mlkem_keypair : ℕ → Result (KemPublicKey × Bytes)
  create_mlkem_keypair level =
      raise_instead
        (do
          seed ← or_raise (p.generate level) crypto_backend_unsupported
          octets ← or_raise (p.public_bytes level seed) crypto_backend_unsupported
          public_key ← build_public_key octets (some level) none
          ok (public_key, seed))
        crypto_backend_unsupported

  unfoldable pub check_backend : Result (Unit {0})
  check_backend = do
    check_each check_mlkem mlkem_levels
    check_each check_aead aead_classes
    check_hkdf
