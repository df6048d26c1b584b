-- ===== src/KeyDirectory/Views.antt =====
-- A key directory seen as two maps, from the names of the files to the keys in them; and what a
-- call for a SHA-256 id reads of it.
use kem_make.Base.{
  Bytes, true, ◌≡◌, refl, Option, none, some, List, [], ◌∷◌, arith, All, bytes_eq, string_eq, any,
  ◌<◌, Option-cases, inl, inr,
}
use kem_make.Base.Dict.{is_some}
use kem_make.Errors.{Error, Result, ok, err, key_not_found, private_key_unwrap_failed, or_raise}
use kem_make.Wire.Messages.{KemPublicKey, KeyId}
use kem_make.KeyDirectory.Hex.{hex-injective, from_hex-hex}
use kem_make.KeyDirectory.Records.{PublicKeyEntryData, AltIndexEntry, load_private_entry}
use kem_make.KeyDirectory.Derivation.{Vault, derive_kek, digest_oid}
use kem_make.KeyDirectory.State.{KeyDirectory, hex_of, public_file, private_file}
use kem_make.KeyDirectory.Entries.{
  has_id, find_entry, load_verified, alt_index_lookup, entry_with_id, load_by_alt_index,
  load_public_entry_by_key_id, get_public_key,
}
use kem_make.KeyDirectory.Invariant.{Codecs, IsOwn, IsSound, IsAlternate, build_key_id-digest}
use kem_make.KeyDirectory.{private_hex, require_identity, get_private_key}

-- what was found, which may be an error itself
abbrev pub found_or_raise : {A : Type 0} → Option (Result A) → Error → Result A
found_or_raise none e = err e
found_or_raise (some r) e = r

module _ (v : Vault) where
  -- the key that a public file holds, where it verifies
  unfoldable pub public_view : Bytes → KeyDirectory → Option KemPublicKey
  public_view h k = elim (public_file h k) [
    | none ↦ none
    | some encoded ↦ elim (load_verified v k.master_key h encoded) [
      | err e ↦ none
      | ok content ↦ some content.public_key
    ]
  ]

  -- what a private file gives: its bytes, or the error of reading or unwrapping it
  unfoldable pub private_view : Bytes → KeyDirectory → Option (Result Bytes)
  private_view h k = elim (private_file h k) [
    | none ↦ none
    | some encoded ↦ elim (load_private_entry v.records encoded) [
      | err e ↦ some (err e)
      | ok stored ↦ some (
          or_raise
            (v.unwrap (derive_kek v k.master_key stored.kek_salt (v.asn1.dump_key_id stored.key_id))
              stored.wrapped_key)
            private_key_unwrap_failed)
    ]
  ]

  -- where there is a key there is a file
  pub public_view_file :
      (h : Bytes) (k : KeyDirectory) (public_key : KemPublicKey)
      → public_view h k ≡ some public_key
      → is_some (public_file h k) ≡ true
  unfolding public_view
  public_view_file h k public_key e = ground (arith, e)

  pub private_view_file :
      (h : Bytes) (k : KeyDirectory) (r : Result Bytes)
      → private_view h k ≡ some r
      → is_some (private_file h k) ≡ true
  unfolding private_view
  private_view_file h k r e = ground (arith, e)

  -- the index lists no id of the default digest
  find_entry-alternate :
      (key_id : KeyId) (index : List AltIndexEntry)
      → All (IsAlternate v) index
      → key_id.hash_algorithm.algorithm ≡ digest_oid v "sha256"
      → find_entry key_id index ≡ none
  unfolding find_entry
  find_entry-alternate key_id [] all default = refl
  find_entry-alternate key_id (e ∷ es) (other, all) default =
      let rest = find_entry-alternate key_id es all default in ground (arith, other, default, rest)

  module _ (codecs : Codecs v) where
    -- the name of an own entry finds it
    has_id-own :
        (key_id : KeyId) (content : PublicKeyEntryData)
        → IsOwn v (hex_of key_id) content
        → key_id.hash_algorithm.algorithm ≡ digest_oid v "sha256"
        → has_id key_id content.key_ids ≡ true
    unfolding has_id any
    has_id-own key_id content own default =
        let same = hex-injective own.primary.key_hash key_id.key_hash own.named in
        let hashed =
          build_key_id-digest v codecs content.public_key "sha256" own.primary own.hashed in
        ground (arith, own.listed, same, hashed, default)

    -- Asked for a SHA-256 id, a sound directory returns the key of the file that the id names, and
    -- raises KeyNotFound where there is none.
    pub get_public_key_lem :
        (key_id : KeyId) (k : KeyDirectory)
        → IsSound v k
        → key_id.hash_algorithm.algorithm ≡ digest_oid v "sha256"
        → get_public_key v key_id k ≡ or_raise (public_view (hex_of key_id) k) key_not_found
    unfolding get_public_key load_public_entry_by_key_id load_by_alt_index entry_with_id
        alt_index_lookup public_view
    get_public_key_lem key_id k s default = elim (Option-cases (public_file (hex_of key_id) k)) [
      | inl absent ↦
          let unlisted = find_entry-alternate key_id s.index s.index_alternate default in
          ground (arith, absent, s.index_read, unlisted)
      | inr (encoded, there) ↦
          let (content, good, own) = s.public_files (hex_of key_id) encoded there in
          ground (arith, there, good, has_id-own key_id content own default)
    ]

    -- and so for private keys
    pub get_private_key_lem :
        (key_id : KeyId) (k : KeyDirectory)
        → IsSound v k
        → All (λ c. c < 256) key_id.key_hash
        → key_id.hash_algorithm.algorithm ≡ digest_oid v "sha256"
        → get_private_key v key_id k ≡ found_or_raise (private_view (hex_of key_id) k) key_not_found
    unfolding get_private_key private_hex require_identity private_view
    get_private_key_lem key_id k s octets default =
        elim (Option-cases (private_file (hex_of key_id) k)) [
          | inl absent ↦ ground (arith, absent)
          | inr (encoded, there) ↦
              let (stored, loads, named, hashed, _, _, _) =
                s.private_files (hex_of key_id) encoded there in
              let same = hex-injective stored.key_id.key_hash key_id.key_hash named in
              ground (arith, there, loads, hashed, same, from_hex-hex key_id.key_hash octets)
        ]
