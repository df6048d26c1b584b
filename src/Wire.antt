-- ===== src/Wire.antt =====
-- src/kem_make/bottom.py and common.py: building, dumping and loading the protocol's messages.
-- The DER encoder and parser are those of the asn1crypto package, and a parameter here.
pub mod Algorithms
pub mod Messages
pub mod Canonical
pub mod Lengths
mod Tests
use kem_make.Base.{
  ℕ, String, Bytes, Bool, true, false, not, Option, none, some, List, [], ◌∷◌, map, ◌==◌, nat_eq,
  ◌≡◌, bytes_eq, if◌then◌else◌, length, all,
}
use kem_make.Base.Dict.{or_else, is_some}
use kem_make.Errors.{
  Error, Result, ok, err, or_raise, raise_if, ◌>>=◌, ◌>>◌, value_error, key_error,
  non_canonical_encoding, unknown_kem_algorithm, kem_length_mismatch, invalid_correlation_id,
  empty_false_start_payload,
}
use kem_make.Wire.Algorithms.{
  mlkem_oid, oid_to_level, mlkem_pk_len, mlkem_ct_len, cid_len, aead_oid, kem_alg,
}
use kem_make.Wire.Messages.{
  Integer, pos, KemPublicKey, KemCiphertext, KeyId, SessionInitRequest, SessionInitResponse,
  SessionCompletionRequest, SessionCompletionResponse, Message, MakePayload, MakeMessage,
  session_init_request, session_init_response, session_completion_request,
  session_completion_response, message,
}

-- asn1crypto for one structure: `parse` is the `load` of `Sequence` with the reading of the fields
-- and their dump again, `none` where one of these raises; `refusal` is what is raised then, a
-- ValueError or not; `encode` is `dump(force=True)` of what was built or parsed.
pub record Der (A : Type 0) : Type 0 where
  pub parse : Bytes → Option A
  pub refusal : Bytes → Error
  pub encode : A → Bytes

-- What asn1crypto documents of it: what was dumped parses to the same value.
abbrev pub RoundTrips : {A : Type 0} → Der A → Type 0
RoundTrips {A} d = (a : A) → d.parse (d.encode a) ≡ some a

pub record Asn1 : Type 0 where
  pub kem_public_key : Der KemPublicKey
  pub kem_ciphertext : Der KemCiphertext
  pub completion_request : Der SessionCompletionRequest
  pub make_message : Der MakeMessage
  pub dump_key_id : KeyId → Bytes
  -- `ObjectIdentifier(o)` raises no ValueError
  pub is_oid : String → Bool

-- `hashlib.new(name, text).digest()`, which raises ValueError on an unknown name, and the OID by
-- which asn1crypto's `DigestAlgorithm` goes for the name
pub record Hashing : Type 0 where
  pub digest : String → Bytes → Option Bytes
  pub digest_oid : String → String

-- common.py: `require_der`, over the class's own `dump`
unfoldable pub require_der : {A : Type 0} → (A → Result Bytes) → Bytes → A → Result (Unit {0})
require_der dump encoded obj = do
  rebuilt ← dump obj
  raise_if (not (rebuilt == encoded)) non_canonical_encoding

-- `super().load(…)`
abbrev pub super_load : {A : Type 0} → Der A → Bytes → Result A
super_load d encoded = or_raise (d.parse encoded) (d.refusal encoded)

-- `_validate_length` of a public key and of a ciphertext
unfoldable pub validate_length : (ℕ → Option ℕ) → String → Bytes → Result (Unit {0})
validate_length expected_len oid octets = do
  level ← or_raise (oid_to_level oid) unknown_kem_algorithm
  expected ← or_raise (expected_len level) key_error
  raise_if (not (length octets == expected)) kem_length_mismatch

-- the level that `KemPublicKey.build` settles on
unfoldable pub build_level : Option ℕ → Option String → Result ℕ
build_level (some level) oid =
    if is_some (mlkem_oid level) then ok level else err unknown_kem_algorithm
build_level none (some oid) = or_raise (oid_to_level oid) unknown_kem_algorithm
build_level none none = err key_error

abbrev pub with_algorithm : String → Bytes → KemPublicKey
with_algorithm oid octets = record { algorithm = kem_alg oid; public_key = octets }

unfoldable pub build_public_key : Bytes → Option ℕ → Option String → Result KemPublicKey
unfolding build_level
build_public_key pk_bytes level oid = do
  chosen ← build_level level oid
  known ← or_raise (mlkem_oid chosen) key_error
  let obj = with_algorithm known pk_bytes
  validate_length mlkem_pk_len obj.algorithm.algorithm obj.public_key
  ok obj

unfoldable pub build_ciphertext : Bytes → ℕ → Result KemCiphertext
build_ciphertext ct_bytes level = do
  known ← or_raise (mlkem_oid level) unknown_kem_algorithm
  let obj : KemCiphertext = record { algorithm = kem_alg known; ciphertext = ct_bytes }
  validate_length mlkem_ct_len known ct_bytes
  ok obj

-- `AeadAlgorithmList.build`
unfoldable pub build_aead_list : Asn1 → List String → Result (List String)
build_aead_list asn1 oids = do
  let resolved = map (λ o. or_else (aead_oid o) o) oids
  nonempty ← elim resolved [ [] ↦ err value_error | o ∷ os ↦ ok (o ∷ os) ]
  if all asn1.is_oid nonempty then ok nonempty else err value_error

-- `KeyId.build`
unfoldable pub build_key_id : Asn1 → Hashing → KemPublicKey → String → Result KeyId
build_key_id asn1 hashing pk name = do
  hashed ← or_raise (hashing.digest name (asn1.kem_public_key.encode pk)) value_error
  ok (record {
    hash_algorithm = record { algorithm = hashing.digest_oid name; parameters = none };
    key_hash = hashed;
  })

-- `SessionCompletionRequest._validate_c_m`
unfoldable pub validate_c_m : SessionCompletionRequest → Result (Unit {0})
validate_c_m req = raise_if (length req.c_m == 0) empty_false_start_payload

unfoldable pub build_completion_request :
    Bytes → KemCiphertext → Bytes → Result SessionCompletionRequest
build_completion_request c_m ct4 n_a = do
  let obj : SessionCompletionRequest = record { c_m = c_m; ct4 = ct4; n_a = n_a }
  validate_c_m obj
  ok obj

-- `MakeMessage._validate_cid`
unfoldable pub validate_cid : MakeMessage → Result (Unit {0})
validate_cid msg = raise_if (not (length msg.cid == cid_len)) invalid_correlation_id

-- `MakeMessage.build`
unfoldable pub build_message : Bytes → MakePayload → Result MakeMessage
build_message cid payload = do
  let obj : MakeMessage = record { version = pos 0; cid = cid; payload = payload }
  validate_cid obj
  ok obj

-- what `dump` of a payload checks: that of `SessionCompletionRequest` is overridden
unfoldable pub validate_payload : MakePayload → Result (Unit {0})
validate_payload (session_completion_request req) = validate_c_m req
validate_payload _ = ok tt

-- `correlation_id`
abbrev pub correlation_id : MakeMessage → Bytes
correlation_id msg = msg.cid

module _ (asn1 : Asn1) where
  unfoldable pub load_public_key : Bytes → Result KemPublicKey
  load_public_key encoded = do
    obj ← super_load asn1.kem_public_key encoded
    require_der (λ o. ok (asn1.kem_public_key.encode o)) encoded obj
    validate_length mlkem_pk_len obj.algorithm.algorithm obj.public_key
    ok obj

  unfoldable pub load_ciphertext : Bytes → Result KemCiphertext
  load_ciphertext encoded = do
    obj ← super_load asn1.kem_ciphertext encoded
    require_der (λ o. ok (asn1.kem_ciphertext.encode o)) encoded obj
    validate_length mlkem_ct_len obj.algorithm.algorithm obj.ciphertext
    ok obj

  -- `SessionCompletionRequest.dump`
  unfoldable pub dump_completion_request : SessionCompletionRequest → Result Bytes
  dump_completion_request req = do validate_c_m req; ok (asn1.completion_request.encode req)

  unfoldable pub load_completion_request : Bytes → Result SessionCompletionRequest
  unfolding dump_completion_request
  load_completion_request encoded = do
    obj ← super_load asn1.completion_request encoded
    require_der dump_completion_request encoded obj
    validate_c_m obj
    ok obj

  -- `MakeMessage.dump`, which dumps the payload by the `dump` of its class
  unfoldable pub dump_message : MakeMessage → Result Bytes
  dump_message msg = do validate_payload msg.payload; ok (asn1.make_message.encode msg)

  unfoldable pub load_message : Bytes → Result MakeMessage
  load_message encoded = do
    obj ← super_load asn1.make_message encoded
    require_der dump_message encoded obj
    validate_cid obj
    ok obj
