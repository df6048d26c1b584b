-- ===== src/KeyDirectory/Records.antt =====
-- src/kem_make/keystore.py, "On-disk record types", with the checks of their `load`.
use kem_make.Base.{String, Bytes, List}
use kem_make.Errors.{Result, ok, ◌>>=◌, ◌>>◌}
use kem_make.Wire.Messages.{Integer, KemPublicKey, KeyId}
use kem_make.Wire.{Der, super_load, require_der}

pub record KeystoreHeader : Type 0 where
  pub version : Integer
  pub kdf_salt : Bytes
  pub kdf_iterations : Integer
  pub verification_tag : Bytes

pub record PublicKeyEntryData : Type 0 where
  pub public_key : KemPublicKey
  pub key_ids : List KeyId

-- Its field `data` is called `content`.
pub record StoredPublicKeyEntry : Type 0 where
  pub content : PublicKeyEntryData
  pub mac_salt : Bytes
  pub mac_tag : Bytes

pub record StoredPrivateKeyEntry : Type 0 where
  pub key_id : KeyId
  pub kek_salt : Bytes
  pub wrap_algorithm : String
  pub wrapped_key : Bytes

pub record AltIndexEntry : Type 0 where
  pub key_id : KeyId
  pub primary_hex : Bytes

pub record AltIndexFile : Type 0 where
  pub entries : List AltIndexEntry
  pub mac_salt : Bytes
  pub mac_tag : Bytes

-- asn1crypto for the records, and what is dumped of them for a MAC or a derivation.
pub record Records : Type 0 where
  pub header : Der KeystoreHeader
  pub public_entry : Der StoredPublicKeyEntry
  pub private_entry : Der StoredPrivateKeyEntry
  pub alt_index : Der AltIndexFile
  pub dump_entry_data : PublicKeyEntryData → Bytes
  pub dump_entries : List AltIndexEntry → Bytes

-- The `load` of the records' classes, which all read alike.
abbrev pub load_record : {A : Type 0} → Der A → Bytes → Result A
load_record d encoded = do
  obj ← super_load d encoded
  require_der (λ o. ok (d.encode o)) encoded obj
  ok obj

-- `KeystoreHeader.load`, `StoredPublicKeyEntry.load`, `StoredPrivateKeyEntry.load`,
-- `AltIndexFile.load`
module _ (r : Records) where
  unfoldable pub load_header : Bytes → Result KeystoreHeader
  load_header encoded = load_record r.header encoded

  unfoldable pub load_public_entry : Bytes → Result StoredPublicKeyEntry
  load_public_entry encoded = load_record r.public_entry encoded

  unfoldable pub load_private_entry : Bytes → Result StoredPrivateKeyEntry
  load_private_entry encoded = load_record r.private_entry encoded

  unfoldable pub load_alt_index_file : Bytes → Result AltIndexFile
  load_alt_index_file encoded = load_record r.alt_index encoded
