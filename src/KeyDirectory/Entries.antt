-- ===== src/KeyDirectory/Entries.antt =====
-- src/kem_make/keystore.py: reading and checking the entries of public keys, and the index of
-- alternate key ids.
use kem_make.Base.{
  Bytes, Bool, not, ◌&&◌, Option, none, some, List, [], ◌∷◌, ◌++◌, ◌==◌, bytes_eq, string_eq,
  if◌then◌else◌, any, all, ltb,
}
use kem_make.Errors.{
  Result, ok, err, raise_if, ◌>>=◌, ◌>>◌, value_error, key_not_found, public_key_integrity_error,
  alt_index_integrity_error,
}
use kem_make.Wire.Messages.{KemPublicKey, KeyId}
use kem_make.Wire.{build_key_id}
use kem_make.KeyDirectory.Files.{owner_only}
use kem_make.KeyDirectory.Records.{
  PublicKeyEntryData, StoredPublicKeyEntry, AltIndexEntry, AltIndexFile, load_public_entry,
  load_alt_index_file,
}
use kem_make.KeyDirectory.Derivation.{Vault, mac_public_key_data, mac_alt_index}
use kem_make.KeyDirectory.State.{
  KeyDirectory, Draw, hex_of, public_file, alt_index_file, write_alt_index,
}

-- equality of two ids, by `.dotted` and `_key_hash_equal`
abbrev pub is_same_id : KeyId → KeyId → Bool
is_same_id a b =
    a.hash_algorithm.algorithm == b.hash_algorithm.algorithm && a.key_hash == b.key_hash

-- `any(… for kid in data["key_ids"])`
unfoldable pub has_id : KeyId → List KeyId → Bool
has_id key_id key_ids = any (λ kid. is_same_id kid key_id) key_ids

-- the loop of `_alt_index_lookup`
unfoldable pub find_entry : KeyId → List AltIndexEntry → Option AltIndexEntry
find_entry key_id [] = none
find_entry key_id (e ∷ es) = if is_same_id e.key_id key_id then some e else find_entry key_id es

-- `decode("ascii")`
abbrev pub decode_ascii : Bytes → Result Bytes
decode_ascii text = if all (λ c. ltb c 128) text then ok text else err value_error

module _ (v : Vault) where
  -- `_primary_key_id`
  abbrev pub primary_key_id : KemPublicKey → Result KeyId
  primary_key_id public_key = build_key_id v.asn1 v.hashing public_key "sha256"

  unfoldable pub build_stored_public_key_entry :
      Bytes → PublicKeyEntryData → Bytes → Bytes → StoredPublicKeyEntry
  build_stored_public_key_entry master_key content hex_id salt = record {
    content = content;
    mac_salt = salt;
    mac_tag = mac_public_key_data v master_key content salt hex_id;
  }

  unfoldable pub verify_and_get_data :
      Bytes → StoredPublicKeyEntry → Bytes → Result PublicKeyEntryData
  verify_and_get_data master_key stored hex_id =
      if stored.mac_tag == mac_public_key_data v master_key stored.content stored.mac_salt hex_id
      then ok stored.content
      else err public_key_integrity_error

  -- reading and verifying one file
  unfoldable pub load_verified : Bytes → Bytes → Bytes → Result PublicKeyEntryData
  load_verified master_key hex_id encoded = do
    stored ← load_public_entry v.records encoded
    verify_and_get_data master_key stored hex_id

  unfoldable pub load_alt_index : KeyDirectory → Result (List AltIndexEntry)
  load_alt_index k = elim (alt_index_file k) [
    | none ↦ ok []
    | some encoded ↦ do
      file ← load_alt_index_file v.records encoded
      raise_if (not (file.mac_tag == mac_alt_index v k.master_key file.entries file.mac_salt))
          alt_index_integrity_error
      ok file.entries
  ]

  unfoldable pub alt_index_lookup : KeyId → KeyDirectory → Result (Option Bytes)
  alt_index_lookup key_id k = do
    entries ← load_alt_index k
    elim (find_entry key_id entries) [
      | none ↦ ok none
      | some entry ↦ do primary_hex ← decode_ascii entry.primary_hex; ok (some primary_hex)
    ]

  -- the entry in one file, if the file is there and the entry has the id
  unfoldable pub entry_with_id : KeyId → Bytes → KeyDirectory → Result (Option PublicKeyEntryData)
  entry_with_id key_id hex_id k = elim (public_file hex_id k) [
    | none ↦ ok none
    | some encoded ↦ do
      content ← load_verified k.master_key hex_id encoded
      if has_id key_id content.key_ids then ok (some content) else ok none
  ]

  -- the part of `_load_public_entry_by_key_id` behind the fast path
  unfoldable pub load_by_alt_index : KeyId → KeyDirectory → Result PublicKeyEntryData
  load_by_alt_index key_id k = do
    primary_hex ← alt_index_lookup key_id k
    elim primary_hex [
      | none ↦ err key_not_found
      | some hex_id ↦ do
        found ← entry_with_id key_id hex_id k
        elim found [ none ↦ err key_not_found | some content ↦ ok content ]
    ]

  -- `_load_public_entry_by_key_id`
  unfoldable pub load_public_entry_by_key_id : KeyId → KeyDirectory → Result PublicKeyEntryData
  load_public_entry_by_key_id key_id k = do
    found ← entry_with_id key_id (hex_of key_id) k
    elim found [ some content ↦ ok content | none ↦ load_by_alt_index key_id k ]

  unfoldable pub get_public_key : KeyId → KeyDirectory → Result KemPublicKey
  get_public_key key_id k = do content ← load_public_entry_by_key_id key_id k; ok content.public_key

  -- `_alt_index_add`
  unfoldable pub alt_index_add :
      Draw → KeyId → Bytes → KeyDirectory → Result (Unit {0}) × KeyDirectory
  alt_index_add draw key_id primary_hex k = elim (load_alt_index k) [
    | err e ↦ (err e, k)
    | ok existing ↦
        let entries = existing ++ (record { key_id = key_id; primary_hex = primary_hex }) ∷ [] in
        let file : AltIndexFile = record {
          entries = entries;
          mac_salt = draw.salt;
          mac_tag = mac_alt_index v k.master_key entries draw.salt;
        } in
        write_alt_index draw (v.records.alt_index.encode file) owner_only k
  ]
