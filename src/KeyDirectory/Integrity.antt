-- ===== src/KeyDirectory/Integrity.antt =====
-- What a key directory returns, whatever is on its disk.
use kem_make.Base.{Bytes, true, ◌≡◌, ◌≢◌, none, some, arith, bytes_eq, Option-cases, inl, inr, ◌⊎◌}
use kem_make.Errors.{Result-cases, ok, err, public_key_integrity_error}
use kem_make.Wire.Messages.{KemPublicKey, KeyId}
use kem_make.Wire.{RoundTrips, require_der}
use kem_make.KeyDirectory.Hex.{from_hex}
use kem_make.KeyDirectory.Records.{
  PublicKeyEntryData, StoredPublicKeyEntry, StoredPrivateKeyEntry, load_public_entry,
  load_private_entry,
}
use kem_make.KeyDirectory.Derivation.{Vault, mac_public_key_data, derive_kek, digest_oid}
use kem_make.KeyDirectory.State.{KeyDirectory, hex_of, public_file, private_file}
use kem_make.KeyDirectory.Entries.{
  has_id, verify_and_get_data, load_verified, build_stored_public_key_entry, entry_with_id,
  alt_index_lookup, load_by_alt_index, load_public_entry_by_key_id, get_public_key,
}
use kem_make.KeyDirectory.{private_hex, require_identity, get_private_key}

-- A file of the directory that is the canonical encoding of an entry whose tag is that of its
-- content under the file's own name.
pub record IsAuthentic (v : Vault) (k : KeyDirectory) (content : PublicKeyEntryData)
    (hex_id : Bytes) : Type 0 where
  pub stored : StoredPublicKeyEntry
  pub same : stored.content ≡ content
  pub on_disk : public_file hex_id k ≡ some (v.records.public_entry.encode stored)
  pub tagged :
      stored.mac_tag ≡ mac_public_key_data v k.master_key stored.content stored.mac_salt hex_id

module _ (v : Vault) (k : KeyDirectory) where
  load_verified-IsAuthentic :
      (hex_id encoded : Bytes) (content : PublicKeyEntryData)
      → public_file hex_id k ≡ some encoded
      → load_verified v k.master_key hex_id encoded ≡ ok content
      → IsAuthentic v k content hex_id
  unfolding load_verified load_public_entry require_der verify_and_get_data
  load_verified-IsAuthentic hex_id encoded content there e =
      elim (Option-cases (v.records.public_entry.parse encoded)) [
        | inl absent ↦ absurd (ground arith)
        | inr (stored, found) ↦ record {
          stored = stored;
          same = ground arith;
          on_disk = ground arith;
          tagged = ground arith;
        }
      ]

  -- an entry that is found in a file
  pub entry_with_id_found :
      (key_id : KeyId) (hex_id : Bytes) (content : PublicKeyEntryData)
      → entry_with_id v key_id hex_id k ≡ ok (some content)
      → (encoded : Bytes) × (public_file hex_id k ≡ some encoded)
        × (load_verified v k.master_key hex_id encoded ≡ ok content)
        × (has_id key_id content.key_ids ≡ true)
  unfolding entry_with_id
  entry_with_id_found key_id hex_id content e = elim (Option-cases (public_file hex_id k)) [
    | inl absent ↦ absurd (ground arith)
    | inr (encoded, there) ↦ elim (Result-cases (load_verified v k.master_key hex_id encoded)) [
      | inl (x, refused) ↦ absurd (ground arith)
      | inr (loaded, good) ↦ (encoded, there, ground arith, ground arith)
    ]
  ]

  -- the file is that of the id itself, or the one that the index names
  pub load_public_entry_found :
      (key_id : KeyId) (content : PublicKeyEntryData)
      → load_public_entry_by_key_id v key_id k ≡ ok content
      → (entry_with_id v key_id (hex_of key_id) k ≡ ok (some content))
        ⊎ ((entry_with_id v key_id (hex_of key_id) k ≡ ok none)
            × (hex_id : Bytes) × (alt_index_lookup v key_id k ≡ ok (some hex_id))
            × (entry_with_id v key_id hex_id k ≡ ok (some content)))
  unfolding load_public_entry_by_key_id load_by_alt_index
  load_public_entry_found key_id content e =
      elim (Result-cases (entry_with_id v key_id (hex_of key_id) k)) [
        | inl (x, refused) ↦ absurd (ground arith)
        | inr (some found, fast) ↦ inl (ground arith)
        | inr (none, slow) ↦ elim (Result-cases (alt_index_lookup v key_id k)) [
          | inl (x, refused) ↦ absurd (ground arith)
          | inr (none, unknown) ↦ absurd (ground arith)
          | inr (some hex_id, named) ↦ inr (slow, hex_id, named, ground arith)
        ]
      ]

  -- Whatever is on the disk, whoever wrote it: a public key that `get_public_key` returns comes
  -- from a file that is the canonical encoding of an entry whose tag is the MAC of its content
  -- under the name of that file, and the content lists the id that was asked for.
  pub get_public_key-IsAuthentic :
      (key_id : KeyId) (public_key : KemPublicKey)
      → get_public_key v key_id k ≡ ok public_key
      → (content : PublicKeyEntryData) × (hex_id : Bytes) × IsAuthentic v k content hex_id
        × (has_id key_id content.key_ids ≡ true)
        × (content.public_key ≡ public_key)
  unfolding get_public_key
  get_public_key-IsAuthentic key_id public_key e =
      elim (Result-cases (load_public_entry_by_key_id v key_id k)) [
        | inl (x, refused) ↦ absurd (ground arith)
        | inr (content, loaded) ↦ elim (load_public_entry_found key_id content loaded) [
          | inl fast ↦
              let (encoded, there, good, listed) =
                entry_with_id_found key_id (hex_of key_id) content fast in
              (
                content,
                hex_of key_id,
                load_verified-IsAuthentic (hex_of key_id) encoded content there good,
                listed,
                ground arith,
              )
          | inr (slow, hex_id, named, found) ↦
              let (encoded, there, good, listed) =
                entry_with_id_found key_id hex_id content found in
              (
                content,
                hex_id,
                load_verified-IsAuthentic hex_id encoded content there good,
                listed,
                ground arith,
              )
        ]
      ]

  -- An entry that was sealed for one file name and lies under another, whose tag differs, is
  -- refused with PublicKeyIntegrityError.
  pub get_public_key_swapped :
      RoundTrips v.records.public_entry
      → (key_id : KeyId) (content : PublicKeyEntryData) (origin salt : Bytes)
      → public_file (hex_of key_id) k
        ≡ some (
            v.records.public_entry.encode
              (build_stored_public_key_entry v k.master_key content origin salt))
      → mac_public_key_data v k.master_key content salt origin
        ≢ mac_public_key_data v k.master_key content salt (hex_of key_id)
      → get_public_key v key_id k ≡ err public_key_integrity_error
  unfolding get_public_key load_public_entry_by_key_id entry_with_id load_verified load_public_entry
      require_der verify_and_get_data build_stored_public_key_entry
  get_public_key_swapped codec key_id content origin salt there apart = ground (
    arith,
    codec (record {
      content = content;
      mac_salt = salt;
      mac_tag = mac_public_key_data v k.master_key content salt origin;
    }),
  )

  -- Whatever is on the disk: private key bytes that `get_private_key` returns were unwrapped from a
  -- canonical entry with the key that belongs to that entry's own id, and this id is the SHA-256 id
  -- that the name of its file spells.
  pub get_private_key_bound :
      (key_id : KeyId) (bytes : Bytes)
      → get_private_key v key_id k ≡ ok bytes
      → (hex_id : Bytes) × (stored : StoredPrivateKeyEntry) × (private_hex v key_id k ≡ ok hex_id)
        × (private_file hex_id k ≡ some (v.records.private_entry.encode stored))
        × (from_hex hex_id ≡ some stored.key_id.key_hash)
        × (stored.key_id.hash_algorithm.algorithm ≡ digest_oid v "sha256")
        × (v.unwrap
              (derive_kek v k.master_key stored.kek_salt (v.asn1.dump_key_id stored.key_id))
              stored.wrapped_key
            ≡ some bytes)
  unfolding get_private_key load_private_entry require_der require_identity
  get_private_key_bound key_id bytes e = elim (Result-cases (private_hex v key_id k)) [
    | inl (x, refused) ↦ absurd (ground arith)
    | inr (hex_id, named) ↦ elim (Option-cases (private_file hex_id k)) [
      | inl absent ↦ absurd (ground arith)
      | inr (encoded, there) ↦ elim (Option-cases (v.records.private_entry.parse encoded)) [
        | inl garbled ↦ absurd (ground arith)
        | inr (stored, parsed) ↦
            (hex_id, stored, named, ground arith, ground arith, ground arith, ground arith)
      ]
    ]
  ]
