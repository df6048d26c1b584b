-- ===== src/KeyDirectory.antt =====
-- src/kem_make/keystore.py: the public methods of `KeyDirectory`. Each call gives back its result
-- and the disk or the directory, which keeps what was written before a raise.
pub mod Hex
pub mod Files
pub mod Records
pub mod Derivation
pub mod State
pub mod Entries
pub mod Opening
pub mod Staging
pub mod Atomicity
pub mod Writes
pub mod Passphrases
pub mod Integrity
pub mod Index
pub mod Steps
pub mod Invariant
pub mod Preservation
pub mod CutWrites
pub mod Crashes
pub mod Views
pub mod Reachable
pub mod Lifecycle
pub mod Reopening
pub mod Stuck
pub mod Alternates
pub mod Interrupted
pub mod Ledger
pub mod Retrieval
pub mod Pairs
mod Tests
pub mod Simulation
pub mod Refinement
use kem_make.Base.{
  ℕ, String, Bytes, Bool, true, false, not, ◌&&◌, ◌||◌, Option, none, some, List, [], ◌∷◌, ◌++◌,
  ◌==◌, bytes_eq, string_eq, if◌then◌else◌,
}
use kem_make.Base.Dict.{is_some}
use kem_make.Errors.{
  Error, Result, ok, err, or_raise, raise_if, ◌>>=◌, ◌>>◌, value_error, index_error,
  key_directory_error, wrong_passphrase, key_not_found, duplicate_key,
  private_key_requires_public_key, private_key_unwrap_failed,
}
use kem_make.Wire.Messages.{Integer, pos, KemPublicKey, KeyId}
use kem_make.Wire.{build_public_key, build_key_id}
use Hex.{from_hex}
use Files.{owner_only, world_readable, owner_folder}
use Records.{
  KeystoreHeader, PublicKeyEntryData, StoredPublicKeyEntry, StoredPrivateKeyEntry, load_header,
  load_private_entry,
}
use Derivation.{
  Vault, derive_master_key, derive_kek, derive_check_tag, wrap_algorithm_oid, zeroed, digest_oid,
}
use State.{
  Folder, Disk, KeyDirectory, Draw, hex_of, header_name, read_file, write_file, public_file,
  private_file, write_public, write_private,
}
use Entries.{
  primary_key_id, build_stored_public_key_entry, load_public_entry_by_key_id, alt_index_add,
}
unfoldable pub use Opening.{
  is_vacant, make_folder, make_dir, make_folders, make_up_to, close, write_header, create,
  open_directory,
}

-- The argument of `add_public_key`: a `KemPublicKey`, or a key object of the `cryptography` package
-- as its raw bytes.
pub data PublicInput : Type 0 where
  wire_key : KemPublicKey → PublicInput
  mlkem768_key : Bytes → PublicInput
  mlkem1024_key : Bytes → PublicInput

unfoldable pub as_wire_key : PublicInput → Result KemPublicKey
as_wire_key (wire_key public_key) = ok public_key
as_wire_key (mlkem768_key octets) = build_public_key octets (some 768) none
as_wire_key (mlkem1024_key octets) = build_public_key octets (some 1024) none

-- The argument of `key_id_for`.
pub data KeyReference : Type 0 where
  by_id : KeyId → KeyReference
  by_key : KemPublicKey → KeyReference

-- the loop of `key_id_for`
unfoldable pub find_digest : String → List KeyId → Option KeyId
find_digest oid [] = none
find_digest oid (kid ∷ kids) =
    if kid.hash_algorithm.algorithm == oid then some kid else find_digest oid kids

-- `key_ids[0]`
unfoldable pub first_id : List KeyId → Result KeyId
first_id [] = err index_error
first_id (kid ∷ kids) = ok kid

module _ (v : Vault) where
  -- `add_public_key`, up to the entry that it writes
  unfoldable pub prepare_public_key :
      Draw → PublicInput → KeyDirectory → Result (KeyId × StoredPublicKeyEntry)
  prepare_public_key draw input k = do
    public_key ← as_wire_key input
    primary ← primary_key_id v public_key
    raise_if (is_some (public_file (hex_of primary) k)) duplicate_key
    let content : PublicKeyEntryData = record { public_key = public_key; key_ids = primary ∷ [] }
    ok (primary, build_stored_public_key_entry v k.master_key content (hex_of primary) draw.salt)

  unfoldable pub add_public_key : Draw → PublicInput → KeyDirectory → Result KeyId × KeyDirectory
  add_public_key draw input k = elim (prepare_public_key draw input k) [
    | err e ↦ (err e, k)
    | ok prepared ↦
        let (primary, entry) = prepared in
        let (r, written) =
          write_public draw (hex_of primary) (v.records.public_entry.encode entry) world_readable
            k in
        elim r [ err e ↦ (err e, written) | ok _ ↦ (ok primary, written) ]
  ]

  -- the first lines of `key_id_for`
  unfoldable pub load_referenced : KeyReference → KeyDirectory → Result PublicKeyEntryData
  load_referenced (by_id key_id) k = load_public_entry_by_key_id v key_id k
  load_referenced (by_key public_key) k =
      primary_key_id v public_key >>= λ key_id. load_public_entry_by_key_id v key_id k

  -- the rest of it, for a digest that is not cached; each of the two writes has its draw
  unfoldable pub cache_key_id :
      Draw → Draw → PublicKeyEntryData → String → KeyDirectory → Result KeyId × KeyDirectory
  cache_key_id draw second content digest k =
      elim (build_key_id v.asn1 v.hashing content.public_key digest) [
        | err e ↦ (err e, k)
        | ok new_kid ↦
            let updated = record content { key_ids = content.key_ids ++ new_kid ∷ [] } in
            elim (first_id updated.key_ids) [
              | err e ↦ (err e, k)
              | ok primary ↦
                  let primary_hex = hex_of primary in
                  let entry =
                    build_stored_public_key_entry v k.master_key updated primary_hex draw.salt in
                  let (r, written) =
                    write_public draw primary_hex (v.records.public_entry.encode entry)
                      world_readable k in
                  elim r [
                    | err e ↦ (err e, written)
                    | ok _ ↦
                        let (q, indexed) = alt_index_add v second new_kid primary_hex written in
                        elim q [ err e ↦ (err e, indexed) | ok _ ↦ (ok new_kid, indexed) ]
                  ]
            ]
      ]

  unfoldable pub key_id_for :
      Draw → Draw → KeyReference → String → KeyDirectory → Result KeyId × KeyDirectory
  key_id_for draw second reference digest k = elim (load_referenced reference k) [
    | err e ↦ (err e, k)
    | ok content ↦ elim (find_digest (digest_oid v digest) content.key_ids) [
      | some kid ↦ (ok kid, k)
      | none ↦ cache_key_id draw second content digest k
    ]
  ]

  -- `add_private_key`, up to the entry that it writes
  unfoldable pub prepare_private_key :
      Draw → KemPublicKey → Bytes → KeyDirectory → Result (KeyId × StoredPrivateKeyEntry)
  prepare_private_key draw public_key private_key_bytes k = do
    primary ← primary_key_id v public_key
    raise_if (not (is_some (public_file (hex_of primary) k))) private_key_requires_public_key
    raise_if (is_some (private_file (hex_of primary) k)) duplicate_key
    let kek = derive_kek v k.master_key draw.salt (v.asn1.dump_key_id primary)
    wrapped_key ← or_raise (v.wrap kek private_key_bytes) value_error
    ok (
      primary,
      record {
        key_id = primary;
        kek_salt = draw.salt;
        wrap_algorithm = wrap_algorithm_oid;
        wrapped_key = wrapped_key;
      },
    )

  unfoldable pub add_private_key :
      Draw → KemPublicKey → Bytes → KeyDirectory → Result KeyId × KeyDirectory
  add_private_key draw public_key private_key_bytes k =
      elim (prepare_private_key draw public_key private_key_bytes k) [
        | err e ↦ (err e, k)
        | ok prepared ↦
            let (primary, entry) = prepared in
            let (r, written) =
              write_private draw (hex_of primary) (v.records.private_entry.encode entry) owner_only
                k in
            elim r [ err e ↦ (err e, written) | ok _ ↦ (ok primary, written) ]
      ]

  -- the file name under which `get_private_key` looks
  unfoldable pub private_hex : KeyId → KeyDirectory → Result Bytes
  private_hex key_id k =
      if key_id.hash_algorithm.algorithm == digest_oid v "sha256" then ok (hex_of key_id) else do
        content ← load_public_entry_by_key_id v key_id k
        primary ← first_id content.key_ids
        ok (hex_of primary)

  -- the check of the identity in a private entry
  unfoldable pub require_identity : StoredPrivateKeyEntry → Bytes → Result (Unit {0})
  require_identity stored hex_id =
      if stored.key_id.hash_algorithm.algorithm == digest_oid v "sha256"
      then (do
        wanted ← or_raise (from_hex hex_id) value_error
        raise_if (not (stored.key_id.key_hash == wanted)) private_key_unwrap_failed)
      else err private_key_unwrap_failed

  unfoldable pub get_private_key : KeyId → KeyDirectory → Result Bytes
  get_private_key key_id k = do
    hex_id ← private_hex key_id k
    encoded ← or_raise (private_file hex_id k) key_not_found
    stored ← load_private_entry v.records encoded
    require_identity stored hex_id
    let kek = derive_kek v k.master_key stored.kek_salt (v.asn1.dump_key_id stored.key_id)
    or_raise (v.unwrap kek stored.wrapped_key) private_key_unwrap_failed
