-- ===== src/Session/Backend.antt =====
-- src/kem_make/session.py, "ML-KEM plumbing" and "Session key derivation". The `cryptography`
-- package, hashlib and the operating system's randomness are parameters.
use Prim.Native.Nat.{bit_xor}
use kem_make.Base.{
  ℕ, zero, suc, ◌/◌, ◌%◌, ◌^◌, String, Bytes, Bool, ◌||◌, Option, none, some, [], ◌∷◌, ◌++◌, ◌==◌,
  nat_eq, string_eq, if◌then◌else◌, length, ltb, codes,
}
use kem_make.Errors.{
  Result, ok, err, or_raise, ◌>>=◌, ◌>>◌, value_error, key_error, overflow_error, backend_error,
  unknown_kem_algorithm,
}
use kem_make.Wire.Algorithms.{oid_to_level}
use kem_make.Wire.Messages.{KemPublicKey, KemCiphertext, KeyId}
use kem_make.Wire.{Asn1, build_public_key, build_ciphertext}

-- The third-party cryptography. Randomness is an argument; `none` is an exception.
pub record Backend : Type 0 where
  -- the seed of `MLKEM…PrivateKey.generate()` at a level
  pub generate : ℕ → Bytes → Bytes
  -- `private.public_key().public_bytes_raw()`, from level and seed
  pub public_bytes : ℕ → Bytes → Bytes
  -- `from_seed_bytes(seed)` does not raise
  pub is_seed : ℕ → Bytes → Bool
  -- `from_public_bytes(pk).encapsulate()`: the shared secret and the ciphertext
  pub encapsulate : ℕ → Bytes → Bytes → Option (Bytes × Bytes)
  -- `from_seed_bytes(seed).decapsulate(ct)`
  pub decapsulate : ℕ → Bytes → Bytes → Option Bytes
  -- HKDF-SHA256, from length, salt, info and key material
  pub hkdf : ℕ → Bytes → Bytes → Bytes → Bytes
  -- `AESGCM` or `ChaCha20Poly1305`, by the program's name for it, from key, nonce, text and
  -- associated data
  pub encrypt : String → Bytes → Bytes → Bytes → Bytes → Option Bytes
  pub decrypt : String → Bytes → Bytes → Bytes → Bytes → Option Bytes
  pub sha256 : Bytes → Bytes

pub record Env : Type 0 where
  pub asn1 : Asn1
  pub backend : Backend

-- `KeyLookup`; `none` is any exception of the key store.
pub record KeyLookup : Type 0 where
  pub get_public_key : KeyId → Option KemPublicKey
  pub get_private_key : KeyId → Option Bytes

-- The randomness that one call may draw: `uuid.uuid4()`, key generation, two encapsulations,
-- `os.urandom(16)`.
pub record Coins : Type 0 where
  pub uuid : Bytes
  pub seed : Bytes
  pub first : Bytes
  pub second : Bytes
  pub nonce : Bytes

-- An `MLKEM768PrivateKey` or `MLKEM1024PrivateKey` object.
pub record PrivateKey : Type 0 where
  pub level : ℕ
  pub seed : Bytes

-- _MLKEM_PUBLIC_CLASSES and _MLKEM_PRIVATE_CLASSES: the levels that have a class
unfoldable pub require_class : ℕ → Result (Unit {0})
require_class level = if level == 768 || level == 1024 then ok tt else err key_error

unfoldable pub level_of : KemPublicKey → Result ℕ
level_of pk = or_raise (oid_to_level pk.algorithm.algorithm) unknown_kem_algorithm

-- _AEAD_KEY_LENGTHS
unfoldable pub aead_key_length : String → Option ℕ
aead_key_length aead =
    if aead == "aes256-gcm" then some 32 else if aead == "chacha20-poly1305" then some 32 else none

abbrev pub aead_nonce_length : ℕ
aead_nonce_length = 12

pub record SessionKeys : Type 0 where
  pub aead_name : String
  pub key_a2b : Bytes
  pub iv_a2b : Bytes
  pub key_b2a : Bytes
  pub iv_b2a : Bytes

-- `seq.to_bytes(k, "big")` below 256 ^ k
unfoldable pub to_bytes : ℕ → ℕ → Bytes
to_bytes zero n = []
to_bytes (suc k) n = to_bytes k (n / 256) ++ (n % 256) ∷ []

-- `bytes(a ^ b for a, b in zip(xs, ys))`
unfoldable pub xor_bytes : Bytes → Bytes → Bytes
xor_bytes [] ys = []
xor_bytes (x ∷ xs) [] = []
xor_bytes (x ∷ xs) (y ∷ ys) = bit_xor x y ∷ xor_bytes xs ys

unfoldable pub nonce_for_seq : Bytes → ℕ → Result Bytes
nonce_for_seq iv seq =
    if ltb seq (256 ^ length iv)
    then ok (xor_bytes iv (to_bytes (length iv) seq))
    else err overflow_error

-- `_aead_cipher`: the names that have a cipher
unfoldable pub require_cipher : String → Result (Unit {0})
require_cipher aead =
    if aead == "aes256-gcm"
    then ok tt
    else if aead == "chacha20-poly1305"
    then ok tt
    else err value_error

module _ (b : Backend) where
  unfoldable pub generate_ephemeral : ℕ → Bytes → Result (PrivateKey × KemPublicKey)
  generate_ephemeral level coins = do
    require_class level
    let seed = b.generate level coins
    public_wire ← build_public_key (b.public_bytes level seed) (some level) none
    ok (record { level = level; seed = seed }, public_wire)

  unfoldable pub encapsulate : KemPublicKey → Bytes → Result (Bytes × KemCiphertext)
  encapsulate peer_public coins = do
    level ← level_of peer_public
    (shared_secret, ct_bytes) ←
        or_raise (b.encapsulate level peer_public.public_key coins) backend_error
    ct ← build_ciphertext ct_bytes level
    ok (shared_secret, ct)

  unfoldable pub decapsulate : Bytes → ℕ → KemCiphertext → Result Bytes
  decapsulate private_seed level ct = do
    require_class level
    or_raise (b.decapsulate level private_seed ct.ciphertext) backend_error

  -- the four derivations, with the key length of the AEAD
  unfoldable pub expand_keys : Bytes → Bytes → Bytes → String → ℕ → SessionKeys
  expand_keys salt f_a ikm aead key_length = record {
    aead_name = aead;
    key_a2b = b.hkdf key_length salt (f_a ++ codes "kem-make-session-a2b-key-v1") ikm;
    iv_a2b = b.hkdf aead_nonce_length salt (f_a ++ codes "kem-make-session-a2b-iv-v1") ikm;
    key_b2a = b.hkdf key_length salt (f_a ++ codes "kem-make-session-b2a-key-v1") ikm;
    iv_b2a = b.hkdf aead_nonce_length salt (f_a ++ codes "kem-make-session-b2a-iv-v1") ikm;
  }

  unfoldable pub derive_session_keys :
      Bytes → Bytes → Bytes → Bytes → Bytes → Bytes → Bytes → String → Result SessionKeys
  derive_session_keys n_a n_b f_a s1 s2 s3 s4 aead = do
    key_length ← or_raise (aead_key_length aead) value_error
    ok (expand_keys (n_a ++ n_b) f_a (s1 ++ (s2 ++ (s3 ++ s4))) aead key_length)

  -- `_encrypt`
  unfoldable pub encrypt : String → Bytes → Bytes → ℕ → Bytes → Bytes → Result Bytes
  encrypt aead key iv seq plaintext associated_data = do
    require_cipher aead
    nonce ← nonce_for_seq iv seq
    or_raise (b.encrypt aead key nonce plaintext associated_data) backend_error

  -- `_decrypt`
  unfoldable pub decrypt : String → Bytes → Bytes → ℕ → Bytes → Bytes → Result Bytes
  decrypt aead key iv seq ciphertext associated_data = do
    require_cipher aead
    nonce ← nonce_for_seq iv seq
    or_raise (b.decrypt aead key nonce ciphertext associated_data) backend_error
