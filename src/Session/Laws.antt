-- ===== src/Session/Laws.antt =====
-- What the cryptography package documents of its primitives, and what the plumbing of session.py
-- then returns.
use kem_make.Base.{
  ℕ, suc, ◌≤◌, ◌<◌, ◌^◌, ◌/◌, ◌%◌, zero, String, Bytes, ◌≡◌, ◌≢◌, refl, sym, some, [], ◌∷◌, ◌++◌,
  length, length-append, arith,
}
use kem_make.Errors.{ok}
use kem_make.Wire.Algorithms.{
  mlkem_oid, mlkem_pk_len, mlkem_ct_len, aead_oid, kem_alg, oid_to_level-mlkem_oid,
}
use kem_make.Wire.Messages.{KemPublicKey, KemCiphertext}
use kem_make.Wire.{with_algorithm, build_public_key, build_ciphertext, build_level}
use kem_make.Wire.Lengths.{validate_length-HasLength}
use kem_make.Session.Backend.{
  Backend, require_class, level_of, aead_key_length, to_bytes, xor_bytes, nonce_for_seq,
  require_cipher, generate_ephemeral, encapsulate, decapsulate, expand_keys, derive_session_keys,
  encrypt, decrypt,
}

-- The longest text that the AEAD ciphers take, 2 ^ 31 - 1 bytes.
abbrev pub max_text : ℕ
max_text = 2147483647

-- An encapsulation against the public key of a seed succeeds, and the seed opens it.
pub record Encapsulates (b : Backend) (level : ℕ) (seed coins : Bytes) : Type 0 where
  pub secret : Bytes
  pub octets : Bytes
  pub made : b.encapsulate level (b.public_bytes level seed) coins ≡ some (secret, octets)
  pub sized : mlkem_ct_len level ≡ some (length octets)
  pub opened : b.decapsulate level seed octets ≡ some secret

-- A text of admissible length is sealed into something that is not empty, and opens to itself.
pub record Seals (b : Backend) (aead : String) (key nonce text ad : Bytes) : Type 0 where
  pub sealed : Bytes
  pub made : b.encrypt aead key nonce text ad ≡ some sealed
  pub tagged : length sealed ≢ 0
  pub opened : b.decrypt aead key nonce sealed ad ≡ some text

pub record Laws (b : Backend) (level : ℕ) : Type 0 where
  pub public_length :
      (seed : Bytes) → mlkem_pk_len level ≡ some (length (b.public_bytes level seed))
  pub kem : (seed coins : Bytes) → Encapsulates b level seed coins
  pub hkdf_length : (n : ℕ) (salt info ikm : Bytes) → length (b.hkdf n salt info ikm) ≡ n
  pub aead :
      (name oid : String) (key nonce text ad : Bytes)
      → aead_oid name ≡ some oid
      → length key ≡ 32
      → length nonce ≡ 12
      → length text ≤ max_text
      → Seals b name key nonce text ad

-- What `_encrypt` makes of a text, and that `_decrypt` opens it.
pub record Sealing (b : Backend) (name : String) (key iv : Bytes) (seq : ℕ) (text ad : Bytes)
    : Type 0 where
  pub sealed : Bytes
  pub made : encrypt b name key iv seq text ad ≡ ok sealed
  pub opened : decrypt b name key iv seq sealed ad ≡ ok text
  pub tagged : length sealed ≢ 0

pub length-to_bytes : (k n : ℕ) → length (to_bytes k n) ≡ k
unfolding to_bytes
length-to_bytes zero n = refl
length-to_bytes (suc k) n =
    omega
      (arith, length-to_bytes k (n / 256), length-append (to_bytes k (n / 256)) ((n % 256) ∷ []))

pub length-xor_bytes :
    (xs ys : Bytes) → length xs ≡ length ys → length (xor_bytes xs ys) ≡ length xs
unfolding xor_bytes
length-xor_bytes [] ys h = refl
length-xor_bytes (x ∷ xs) [] h = absurd (omega arith)
length-xor_bytes (x ∷ xs) (y ∷ ys) h = omega (arith, length-xor_bytes xs ys (omega arith))

-- A sequence number that fits gives a nonce as long as the IV.
pub nonce_for_seq_total :
    (iv : Bytes) (seq : ℕ)
    → seq < 256 ^ length iv
    → (nonce : Bytes) × (nonce_for_seq iv seq ≡ ok nonce) × (length nonce ≡ length iv)
unfolding nonce_for_seq
nonce_for_seq_total iv seq h = (
  xor_bytes iv (to_bytes (length iv) seq),
  ground arith,
  length-xor_bytes iv (to_bytes (length iv) seq) (sym (length-to_bytes (length iv) seq)),
)

require_cipher-aead_oid :
    (name oid : String) → aead_oid name ≡ some oid → require_cipher name ≡ ok tt
unfolding aead_oid require_cipher
require_cipher-aead_oid name oid h = ground arith

aead_key_length-aead_oid :
    (name oid : String) → aead_oid name ≡ some oid → aead_key_length name ≡ some 32
unfolding aead_oid aead_key_length
aead_key_length-aead_oid name oid h = ground arith

module _ (b : Backend) (level : ℕ) (w : Laws b level) (oid : String)
    (known : mlkem_oid level ≡ some oid) where
  require_class-known : require_class level ≡ ok tt
  unfolding require_class mlkem_oid
  require_class-known = ground arith

  -- The public key of a seed, as the program builds it.
  abbrev pub public_of : Bytes → KemPublicKey
  public_of seed = with_algorithm oid (b.public_bytes level seed)

  abbrev pub ciphertext_of : Bytes → Bytes → KemCiphertext
  ciphertext_of seed coins = record {
    algorithm = kem_alg oid;
    ciphertext = (w.kem seed coins).octets;
  }

  abbrev pub secret_of : Bytes → Bytes → Bytes
  secret_of seed coins = (w.kem seed coins).secret

  pub level_of-public_of : (seed : Bytes) → level_of (public_of seed) ≡ ok level
  unfolding level_of kem_alg
  level_of-public_of seed = rw (oid_to_level-mlkem_oid level oid known)

  pub generate_ephemeral_lem :
      (coins : Bytes)
      → generate_ephemeral b level coins
        ≡ ok (
          record { level = level; seed = b.generate level coins },
          public_of (b.generate level coins),
        )
  unfolding generate_ephemeral build_public_key build_level kem_alg
  generate_ephemeral_lem coins = ground (
    arith,
    require_class-known,
    (validate_length-HasLength mlkem_pk_len oid (b.public_bytes level (b.generate level coins))).1
        (level, oid_to_level-mlkem_oid level oid known, w.public_length (b.generate level coins)),
  )

  pub encapsulate_lem :
      (seed coins : Bytes)
      → encapsulate b (public_of seed) coins ≡ ok (secret_of seed coins, ciphertext_of seed coins)
  unfolding encapsulate build_ciphertext
  encapsulate_lem seed coins = ground (
    arith,
    level_of-public_of seed,
    (w.kem seed coins).made,
    (validate_length-HasLength mlkem_ct_len oid (w.kem seed coins).octets).1
        (level, oid_to_level-mlkem_oid level oid known, (w.kem seed coins).sized),
  )

  pub decapsulate_lem :
      (seed coins : Bytes)
      → decapsulate b seed level (ciphertext_of seed coins) ≡ ok (secret_of seed coins)
  unfolding decapsulate
  decapsulate_lem seed coins = ground (arith, require_class-known, (w.kem seed coins).opened)

  pub derive_lem :
      (n_a n_b f_a s1 s2 s3 s4 : Bytes) (name aead : String)
      → aead_oid name ≡ some aead
      → derive_session_keys b n_a n_b f_a s1 s2 s3 s4 name
        ≡ ok (expand_keys b (n_a ++ n_b) f_a (s1 ++ (s2 ++ (s3 ++ s4))) name 32)
  unfolding derive_session_keys
  derive_lem n_a n_b f_a s1 s2 s3 s4 name aead h = rw (aead_key_length-aead_oid name aead h)

  pub expand_keys_sizes :
      (salt f_a ikm : Bytes) (name : String)
      → let k = expand_keys b salt f_a ikm name 32 in
        (k.aead_name ≡ name)
        × (length k.key_a2b ≡ 32)
        × (length k.iv_a2b ≡ 12)
        × (length k.key_b2a ≡ 32)
        × (length k.iv_b2a ≡ 12)
  unfolding expand_keys
  expand_keys_sizes salt f_a ikm name = (
    refl,
    w.hkdf_length _ _ _ _,
    w.hkdf_length _ _ _ _,
    w.hkdf_length _ _ _ _,
    w.hkdf_length _ _ _ _,
  )

  -- Sealing with a key and an IV of the right lengths succeeds, and the other side's decryption
  -- gives the text back.
  pub encrypt_total :
      (name aead : String) (key iv : Bytes) (seq : ℕ) (text ad : Bytes)
      → aead_oid name ≡ some aead
      → length key ≡ 32
      → length iv ≡ 12
      → seq < 256 ^ 12
      → length text ≤ max_text
      → Sealing b name key iv seq text ad
  unfolding encrypt decrypt
  encrypt_total name aead key iv seq text ad h kl il sl tl =
      let (nonce, made, size) = nonce_for_seq_total iv seq (rw il sl) in
      let s : Seals b name key nonce text ad =
        w.aead name aead key nonce text ad h kl (omega arith) tl in
      record {
        sealed = s.sealed;
        made = rw (require_cipher-aead_oid name aead h, made, s.made);
        opened = rw (require_cipher-aead_oid name aead h, made, s.opened);
        tagged = s.tagged;
      }
