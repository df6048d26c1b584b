-- ===== src/Wire/Lengths.antt =====
-- Lengths of keys and ciphertexts, the AEAD list, and the false-start payload.
use kem_make.Base.{
  ℕ, String, Bytes, ◌≡◌, ◌≢◌, ◌↔◌, Option, none, some, length, arith, Option-cases, ◌⊎◌, inl, inr,
}
use kem_make.Errors.{ok}
use kem_make.Wire.Algorithms.{
  mlkem_oid, oid_to_level, mlkem_pk_len, mlkem_ct_len, kem_alg, oid_to_level-mlkem_oid,
}
use kem_make.Wire.Messages.{KemPublicKey, KemCiphertext, SessionCompletionRequest}
use kem_make.Wire.{
  Asn1, RoundTrips, require_der, validate_length, validate_c_m, build_level, with_algorithm,
  build_public_key, build_ciphertext, build_completion_request, load_public_key, load_ciphertext,
  load_completion_request, dump_completion_request,
}

-- FIPS 203: a key of a level that the table knows has that level's length.
abbrev pub HasLength : (ℕ → Option ℕ) → String → Bytes → Type 0
HasLength expected_len oid octets =
    (level : ℕ) × (oid_to_level oid ≡ some level) × (expected_len level ≡ some (length octets))

pub validate_length-HasLength :
    (expected_len : ℕ → Option ℕ) (oid : String) (octets : Bytes)
    → (validate_length expected_len oid octets ≡ ok tt) ↔ HasLength expected_len oid octets
unfolding validate_length
validate_length-HasLength expected_len oid octets = (
  λ h. elim (Option-cases (oid_to_level oid)) [
    | inl absent ↦ ground arith
    | inr (level, found) ↦ (level, found, ground arith)
  ],
  λ (level, known, fits). ground arith,
)

abbrev pub IsKey : KemPublicKey → Type 0
IsKey pk = HasLength mlkem_pk_len pk.algorithm.algorithm pk.public_key

abbrev pub IsCiphertext : KemCiphertext → Type 0
IsCiphertext ct = HasLength mlkem_ct_len ct.algorithm.algorithm ct.ciphertext

-- A public key that `build` returns has the length of the level that its OID names, carries the
-- octets given, and no parameters in its algorithm identifier.
pub build_public_key-IsKey :
    (octets : Bytes) (level : Option ℕ) (oid : Option String) (pk : KemPublicKey)
    → build_public_key octets level oid ≡ ok pk
    → IsKey pk × (pk.public_key ≡ octets) × (pk.algorithm.parameters ≡ none)
unfolding build_public_key kem_alg
build_public_key-IsKey octets level oid pk h =
    let fits : validate_length mlkem_pk_len pk.algorithm.algorithm pk.public_key ≡ ok tt =
      ground arith in
    (
      (validate_length-HasLength mlkem_pk_len pk.algorithm.algorithm pk.public_key).0 fits,
      ground arith,
      ground arith,
    )

-- The same of a ciphertext.
pub build_ciphertext-IsCiphertext :
    (octets : Bytes) (level : ℕ) (ct : KemCiphertext)
    → build_ciphertext octets level ≡ ok ct
    → IsCiphertext ct × (ct.ciphertext ≡ octets) × (mlkem_oid level ≡ some ct.algorithm.algorithm)
unfolding build_ciphertext kem_alg
build_ciphertext-IsCiphertext octets level ct h =
    let fits : validate_length mlkem_ct_len ct.algorithm.algorithm ct.ciphertext ≡ ok tt =
      ground arith in
    (
      (validate_length-HasLength mlkem_ct_len ct.algorithm.algorithm ct.ciphertext).0 fits,
      ground arith,
      ground arith,
    )

-- Octets of the right length for a level are built, and the key names the level.
pub build_public_key_total :
    (octets : Bytes) (level : ℕ) (oid : Option String)
    → mlkem_pk_len level ≡ some (length octets)
    → (name : String) × (build_public_key octets (some level) oid ≡ ok (with_algorithm name octets))
      × (oid_to_level name ≡ some level)
unfolding build_public_key build_level kem_alg mlkem_pk_len mlkem_oid
build_public_key_total octets level oid h = elim (Option-cases (mlkem_oid level)) [
  | inl absent ↦ absurd (ground arith)
  | inr (name, found) ↦
      let known : oid_to_level name ≡ some level = oid_to_level-mlkem_oid level name found in
      (
        name,
        ground (arith, (validate_length-HasLength mlkem_pk_len name octets).1 (level, known, h)),
        known,
      )
]

module _ (asn1 : Asn1) where
  -- With asn1crypto's round trip, `KemPublicKey.load` returns a key exactly if the bytes are that
  -- key's canonical dump and the key has the length of the level that its OID names.
  pub load_public_key_iff :
      RoundTrips asn1.kem_public_key
      → (encoded : Bytes) (pk : KemPublicKey)
      → (load_public_key asn1 encoded ≡ ok pk)
        ↔ ((asn1.kem_public_key.encode pk ≡ encoded) × IsKey pk)
  unfolding load_public_key require_der
  load_public_key_iff law encoded pk =
      let fits : load_public_key asn1 encoded ≡ ok pk
          → validate_length mlkem_pk_len pk.algorithm.algorithm pk.public_key ≡ ok tt =
        λ h. ground arith in
      (
        λ h. (
          ground arith,
          (validate_length-HasLength mlkem_pk_len pk.algorithm.algorithm pk.public_key).0 (fits h),
        ),
        λ (same, known). ground (
          arith,
          law pk,
          (validate_length-HasLength mlkem_pk_len pk.algorithm.algorithm pk.public_key).1 known,
        ),
      )

  -- The same of `KemCiphertext.load`.
  pub load_ciphertext_iff :
      RoundTrips asn1.kem_ciphertext
      → (encoded : Bytes) (ct : KemCiphertext)
      → (load_ciphertext asn1 encoded ≡ ok ct)
        ↔ ((asn1.kem_ciphertext.encode ct ≡ encoded) × IsCiphertext ct)
  unfolding load_ciphertext require_der
  load_ciphertext_iff law encoded ct =
      let fits : load_ciphertext asn1 encoded ≡ ok ct
          → validate_length mlkem_ct_len ct.algorithm.algorithm ct.ciphertext ≡ ok tt =
        λ h. ground arith in
      (
        λ h. (
          ground arith,
          (validate_length-HasLength mlkem_ct_len ct.algorithm.algorithm ct.ciphertext).0 (fits h),
        ),
        λ (same, known). ground (
          arith,
          law ct,
          (validate_length-HasLength mlkem_ct_len ct.algorithm.algorithm ct.ciphertext).1 known,
        ),
      )

  -- A completion request with an empty false-start payload cannot be built, dumped or loaded.
  pub completion_request_nonempty :
      (req : SessionCompletionRequest) (encoded : Bytes)
      → ((build_completion_request req.c_m req.ct4 req.n_a ≡ ok req)
          ⊎ (dump_completion_request asn1 req ≡ ok encoded)
          ⊎ (load_completion_request asn1 encoded ≡ ok req))
      → length req.c_m ≢ 0
  unfolding build_completion_request dump_completion_request load_completion_request validate_c_m
  completion_request_nonempty req encoded h = ground arith
