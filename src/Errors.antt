-- ===== src/Errors.antt =====
-- The exceptions that the package raises or lets through, and `Result` for a call that may raise.
use kem_make.Base.{Bool, true, false, ◌≡◌, refl, ◌⊎◌, inl, inr, Option, none, some}

pub data Error : Type 0 where
  -- `ValueError`, and the subclasses of it that common.py and bottom.py define
  value_error : Error
  non_canonical_encoding : Error
  unknown_kem_algorithm : Error
  kem_length_mismatch : Error
  invalid_correlation_id : Error
  empty_false_start_payload : Error
  -- candidate.py
  candidate_limit_exceeded : Error
  -- session.py and dispatcher.py
  session_error : Error
  unexpected_pdu : Error
  handshake_failed : Error
  dispatcher_error : Error
  -- `KeyError`, `OverflowError`, `IndexError`
  key_error : Error
  overflow_error : Error
  index_error : Error
  -- `AttributeError` or `TypeError`: an attribute that is still `None` was used
  none_used : Error
  -- whatever the key store raises, and whatever the `cryptography` package raises
  -- (`InvalidTag`, a `ValueError` of its own)
  key_lookup_error : Error
  backend_error : Error
  -- crypto_backend.py
  crypto_backend_unsupported : Error
  -- keystore.py, and the operating system
  key_directory_error : Error
  wrong_passphrase : Error
  key_not_found : Error
  duplicate_key : Error
  private_key_requires_public_key : Error
  private_key_unwrap_failed : Error
  public_key_integrity_error : Error
  alt_index_integrity_error : Error
  os_error : Error

-- `except ValueError`
abbrev pub is_value_error : Error → Bool
is_value_error value_error = true
is_value_error non_canonical_encoding = true
is_value_error unknown_kem_algorithm = true
is_value_error kem_length_mismatch = true
is_value_error invalid_correlation_id = true
is_value_error empty_false_start_payload = true
is_value_error _ = false

-- What a call returns or raises.
pub data Result {ℓ} (A : Type ℓ) : Type ℓ where
  err : Error → Result A
  ok : A → Result A

abbrev pub or_raise {ℓ} : {A : Type ℓ} → Option A → Error → Result A
or_raise none e = err e
or_raise (some a) e = ok a

-- `try: … except Exception as e: raise wanted from e`
abbrev pub raise_instead {ℓ} : {A : Type ℓ} → Result A → Error → Result A
raise_instead (ok a) wanted = ok a
raise_instead (err e) wanted = err wanted

-- a raise ends the block
infixl 5 ◌>>=◌ ◌>>◌
abbrev pub ◌>>=◌ : {A B : Type 0} → Result A → (A → Result B) → Result B
m >>= k = elim m [ err e ↦ err e | ok a ↦ k a ]

-- `if test: raise e`
abbrev pub raise_if : Bool → Error → Result (Unit {0})
raise_if false e = ok tt
raise_if true e = err e

abbrev pub ◌>>◌ : {B : Type 0} → Result (Unit {0}) → Result B → Result B
first >> rest = first >>= λ _. rest

pub Result-cases {ℓ} :
    {A : Type ℓ} (r : Result A) → ((e : Error) × (r ≡ err e)) ⊎ ((a : A) × (r ≡ ok a))
Result-cases (ok a) = inr (a, refl)
Result-cases (err e) = inl (e, refl)
