-- ===== src/KeyDirectory/Derivation.antt =====
-- src/kem_make/keystore.py: the constants, and the keys and tags that are derived from a passphrase
-- and a master key. The `cryptography` package, `hmac` and hashlib are parameters.
use kem_make.Base.{ℕ, String, Bytes, Option, ◌++◌, codes, length, replicate, List}
use kem_make.Errors.{Result, or_raise, value_error}
use kem_make.Wire.Messages.{Integer}
use kem_make.Wire.{Asn1, Hashing}
use kem_make.KeyDirectory.Records.{Records, PublicKeyEntryData, AltIndexEntry}

-- The packages, for a key directory. `none` is an exception: a ValueError of PBKDF2 or of the wrap,
-- `InvalidUnwrap` of the unwrap.
pub record Vault : Type 0 where
  pub asn1 : Asn1
  pub hashing : Hashing
  pub records : Records
  -- PBKDF2-HMAC-SHA256, from length, passphrase, salt and iterations
  pub pbkdf2 : ℕ → Bytes → Bytes → Integer → Option Bytes
  -- HKDF-SHA256, from length, salt, info and key material
  pub hkdf : ℕ → Bytes → Bytes → Bytes → Bytes
  -- `hmac.new(key, text, "sha256").digest()`
  pub hmac_sha256 : Bytes → Bytes → Bytes
  -- AES key wrap with padding
  pub wrap : Bytes → Bytes → Option Bytes
  pub unwrap : Bytes → Bytes → Option Bytes

abbrev pub master_key_len : ℕ
master_key_len = 32

abbrev pub kek_len : ℕ
kek_len = 32

abbrev pub mac_key_len : ℕ
mac_key_len = 32

abbrev pub domain_kek : Bytes
domain_kek = codes "kem-make-keystore-kek-v1"

abbrev pub domain_check : Bytes
domain_check = codes "kem-make-keystore-check-v1"

abbrev pub check_value : Bytes
check_value = codes "kem-make-keystore-checkvalue-v1"

abbrev pub domain_public_key_mac : Bytes
domain_public_key_mac = codes "kem-make-keystore-pubkey-mac-v1"

abbrev pub domain_alt_index_mac : Bytes
domain_alt_index_mac = codes "kem-make-keystore-altindex-mac-v1"

abbrev pub wrap_algorithm_oid : String
wrap_algorithm_oid = "2.16.840.1.101.3.4.1.48"

-- `_zero`
unfoldable pub zeroed : Bytes → Bytes
zeroed buf = replicate (length buf) 0

module _ (v : Vault) where
  -- a passphrase that is text comes encoded as UTF-8
  unfoldable pub derive_master_key : Bytes → Bytes → Integer → Result Bytes
  derive_master_key passphrase salt iterations =
      or_raise (v.pbkdf2 master_key_len passphrase salt iterations) value_error

  unfoldable pub derive_kek : Bytes → Bytes → Bytes → Bytes
  derive_kek master_key salt key_identity =
      v.hkdf kek_len salt (domain_kek ++ key_identity) master_key

  unfoldable pub derive_public_key_mac_key : Bytes → Bytes → Bytes → Bytes
  derive_public_key_mac_key master_key salt hex_id =
      v.hkdf mac_key_len salt (domain_public_key_mac ++ hex_id) master_key

  unfoldable pub derive_alt_index_mac_key : Bytes → Bytes → Bytes
  derive_alt_index_mac_key master_key salt = v.hkdf mac_key_len salt domain_alt_index_mac master_key

  unfoldable pub derive_check_tag : Bytes → Bytes → Bytes
  derive_check_tag master_key header_salt =
      v.hmac_sha256 (v.hkdf 32 header_salt domain_check master_key) check_value

  unfoldable pub mac_public_key_data : Bytes → PublicKeyEntryData → Bytes → Bytes → Bytes
  mac_public_key_data master_key content salt hex_id =
      v.hmac_sha256 (derive_public_key_mac_key master_key salt hex_id)
        (v.records.dump_entry_data content)

  unfoldable pub mac_alt_index : Bytes → List AltIndexEntry → Bytes → Bytes
  mac_alt_index master_key entries salt =
      v.hmac_sha256 (derive_alt_index_mac_key master_key salt) (v.records.dump_entries entries)

  -- `_digest_oid`; a name that has no OID raises here in the program, and in `build_key_id` in the
  -- model
  abbrev pub digest_oid : String → String
  digest_oid name = v.hashing.digest_oid name
