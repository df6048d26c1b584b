-- ===== src/KeyDirectory/Invariant.antt =====
-- What every file of a key directory satisfies that only the program has written.
use kem_make.Base.{
  Bytes, String, true, ◌≡◌, ◌≢◌, some, List, ◌∷◌, arith, All, bytes_eq, length, ◌<◌, ◌^◌,
}
use kem_make.Base.Dict.{is_some}
use kem_make.Errors.{ok}
use kem_make.Wire.Messages.{KemPublicKey, KeyId}
use kem_make.Wire.{RoundTrips, require_der, build_key_id}
use kem_make.KeyDirectory.Records.{
  PublicKeyEntryData, StoredPrivateKeyEntry, AltIndexEntry, load_public_entry, load_private_entry,
}
use kem_make.KeyDirectory.Derivation.{Vault, derive_kek, mac_public_key_data, digest_oid}
use kem_make.KeyDirectory.State.{KeyDirectory, hex_of, public_file, private_file}
use kem_make.KeyDirectory.Entries.{
  primary_key_id, verify_and_get_data, load_verified, build_stored_public_key_entry, load_alt_index,
}

-- asn1crypto's round trips for the files that hold keys.
pub record Codecs (v : Vault) : Type 0 where
  pub public_entry : RoundTrips v.records.public_entry
  pub private_entry : RoundTrips v.records.private_entry
  pub alt_index : RoundTrips v.records.alt_index

-- RFC 5649 wraps texts of 1 to 2^32 octets; the longest is left out.
abbrev pub IsWrappable : Bytes → Type 0
IsWrappable bytes = (0 < length bytes) × (length bytes < 2 ^ 32)

-- The unwrap of what was wrapped, for such texts.
abbrev pub IsWrap : Vault → Type 0
IsWrap v =
    (kek bytes wrapped : Bytes)
    → IsWrappable bytes
    → v.wrap kek bytes ≡ some wrapped
    → v.unwrap kek wrapped ≡ some bytes

-- The first id of an entry is the SHA-256 id of its key, and names its file.
pub record IsOwn (v : Vault) (h : Bytes) (content : PublicKeyEntryData) : Type 0 where
  pub primary : KeyId
  pub rest : List KeyId
  pub listed : content.key_ids ≡ primary ∷ rest
  pub named : hex_of primary ≡ h
  pub hashed : primary_key_id v content.public_key ≡ ok primary

abbrev pub HoldsPublic : Vault → KeyDirectory → Bytes → Bytes → Type 0
HoldsPublic v k h encoded =
    (content : PublicKeyEntryData) × (load_verified v k.master_key h encoded ≡ ok content)
    × IsOwn v h content

abbrev pub HoldsPrivate : Vault → KeyDirectory → Bytes → Bytes → Type 0
HoldsPrivate v k h encoded =
    (stored : StoredPrivateKeyEntry) × (load_private_entry v.records encoded ≡ ok stored)
    × (hex_of stored.key_id ≡ h)
    × (stored.key_id.hash_algorithm.algorithm ≡ digest_oid v "sha256")
    × (is_some (public_file h k) ≡ true)
    × (bytes : Bytes) × (v.wrap
          (derive_kek v k.master_key stored.kek_salt (v.asn1.dump_key_id stored.key_id)) bytes
        ≡ some stored.wrapped_key)

abbrev pub IsAlternate : Vault → AltIndexEntry → Type 0
IsAlternate v entry = entry.key_id.hash_algorithm.algorithm ≢ digest_oid v "sha256"

-- Every public entry verifies and is its own; every private entry is whole, wraps some bytes under
-- the key of its own id, lies under its own name and beside its public key; the index verifies and
-- lists alternate ids only.
pub record IsSound (v : Vault) (k : KeyDirectory) : Type 0 where
  pub public_files :
      (h encoded : Bytes) → public_file h k ≡ some encoded → HoldsPublic v k h encoded
  pub private_files :
      (h encoded : Bytes) → private_file h k ≡ some encoded → HoldsPrivate v k h encoded
  pub index : List AltIndexEntry
  pub index_read : load_alt_index v k ≡ ok index
  pub index_alternate : All (IsAlternate v) index

module _ (v : Vault) (codecs : Codecs v) where
  -- what was sealed for a name verifies under it
  pub load_verified-built :
      (master_key h salt : Bytes) (content : PublicKeyEntryData)
      → load_verified v master_key h (
          v.records.public_entry.encode (build_stored_public_key_entry v master_key content h salt))
        ≡ ok content
  unfolding load_verified load_public_entry require_der verify_and_get_data
      build_stored_public_key_entry
  load_verified-built master_key h salt content = ground (
    arith,
    codecs.public_entry (record {
      content = content;
      mac_salt = salt;
      mac_tag = mac_public_key_data v master_key content salt h;
    }),
  )

  pub load_private_entry-encode :
      (stored : StoredPrivateKeyEntry)
      → load_private_entry v.records (v.records.private_entry.encode stored) ≡ ok stored
  unfolding load_private_entry require_der
  load_private_entry-encode stored = ground (arith, codecs.private_entry stored)

  -- an id is of the algorithm that its digest names
  pub build_key_id-digest :
      (public_key : KemPublicKey) (digest : String) (kid : KeyId)
      → build_key_id v.asn1 v.hashing public_key digest ≡ ok kid
      → kid.hash_algorithm.algorithm ≡ digest_oid v digest
  unfolding build_key_id
  build_key_id-digest public_key digest kid e = ground arith
