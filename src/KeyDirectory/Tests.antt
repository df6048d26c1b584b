-- ===== src/KeyDirectory/Tests.antt =====
-- A key directory at concrete inputs.
mod Storing
mod Creating
mod Naming
mod Tampering
use kem_make.Base.{
  ℕ, String, Bytes, Bool, true, false, ◌≡◌, ◌≢◌, refl, sym, ap, Option, none, some, List, [], ◌∷◌,
  arith, codes, All, ◌⊎◌, ◌<◌,
}
use kem_make.Base.Dict.{get, set, erase, is_some}
use kem_make.Errors.{
  Error, Result, ok, err, or_raise, os_error, key_not_found, duplicate_key,
  public_key_integrity_error, wrong_passphrase,
}
use kem_make.Wire.{build_key_id}
use kem_make.Wire.Algorithms.{AlgorithmIdentifier}
use kem_make.Wire.Messages.{Integer, pos, KemPublicKey, KeyId}
use kem_make.KeyDirectory.Hex.{hex}
use kem_make.KeyDirectory.Files.{
  File, Fault, smooth, at_create, at_write, atomic_write, write_under, perform_all, perform,
  owner_folder,
}
use kem_make.KeyDirectory.Records.{PublicKeyEntryData, AltIndexEntry}
use kem_make.KeyDirectory.Derivation.{derive_master_key, digest_oid}
use kem_make.KeyDirectory.State.{
  Folder, Disk, KeyDirectory, Draw, write_file, read_file, hex_of, public_file, private_file,
}
use kem_make.KeyDirectory.Entries.{primary_key_id, get_public_key}
use kem_make.KeyDirectory.Passphrases.{open_directory-create}
use kem_make.KeyDirectory.Invariant.{IsSound}
use kem_make.KeyDirectory.Lifecycle.{
  IsTree, Call, adds_public, adds_private, makes_id, after, Reaches, created, called,
  Reaches-IsSound,
}
use kem_make.KeyDirectory.Reopening.{open_directory-Reaches}
use kem_make.KeyDirectory.Ledger.{empty_ledger}
use kem_make.KeyDirectory.Simulation.{HasWrappable}
use kem_make.KeyDirectory.Refinement.{run, book_all, run_refines}
use kem_make.KeyDirectory.Retrieval.{
  IsClear, get_public_key-add_public_key, get_private_key-add_private_key, add_public_key_completes,
  add_private_key_completes,
}
use kem_make.KeyDirectory.Pairs.{keypair_stored}
use kem_make.KeyDirectory.{
  create, open_directory, make_folders, make_folder, is_vacant, write_header, PublicInput, wire_key,
  as_wire_key, add_public_key, add_private_key, get_private_key,
}
use kem_make.Samples.Directory.{
  bare, draw, passphrase, new_directory, is_created, is_tree, public_folder_free,
  private_folder_free, is_absent, sample_hashing_octets,
}
use kem_make.Samples.Messages.{sample_asn1}
use kem_make.Samples.Vault.{
  sample_vault, sample_hashing, sample-Codecs, sample-IsWrap, is_wrappable,
  sample_header-RoundTrips, sample_hashing-IsOctetHash,
}

abbrev pub key : KemPublicKey
key = record {
  algorithm = record { algorithm = "2.16.840.1.101.3.4.4.2"; parameters = none };
  public_key = 5 ∷ 6 ∷ [];
}

-- its SHA-256 id
unfoldable pub first_key_id : KeyId
first_key_id = elim (primary_key_id sample_vault key) [
  | ok kid ↦ kid
  | err e ↦ record { hash_algorithm = key.algorithm; key_hash = [] }
]

pub is_hashed : primary_key_id sample_vault key ≡ ok first_key_id
unfolding first_key_id build_key_id sample_vault sample_hashing
is_hashed = refl

is_default : first_key_id.hash_algorithm.algorithm ≡ digest_oid sample_vault "sha256"
unfolding first_key_id build_key_id sample_vault sample_hashing
is_default = refl

are_octets : All (λ c. c < 256) first_key_id.key_hash
unfolding first_key_id build_key_id sample_vault sample_hashing
are_octets = (omega arith, (omega arith, tt))

abbrev pub calls : List Call
calls = adds_public draw (wire_key key) ∷ adds_private draw key (8 ∷ []) ∷ []

Reaches-IsSound_example :
    IsSound sample_vault (after sample_vault (adds_public draw (wire_key key)) new_directory)
Reaches-IsSound_example =
    Reaches-IsSound sample_vault sample-Codecs passphrase
      (after sample_vault (adds_public draw (wire_key key)) new_directory)
      (called (adds_public draw (wire_key key)) new_directory
        (created draw (pos 3) bare new_directory is_tree is_created))

open_directory-Reaches_example :
    let k = after sample_vault (adds_public draw (wire_key key)) new_directory in
    open_directory sample_vault passphrase k.disk ≡ ok k
open_directory-Reaches_example =
    open_directory-Reaches sample_vault sample_header-RoundTrips passphrase
      (after sample_vault (adds_public draw (wire_key key)) new_directory)
      (called (adds_public draw (wire_key key)) new_directory
        (created draw (pos 3) bare new_directory is_tree is_created))

run_refines_example :
    let l = book_all sample_vault calls new_directory empty_ledger in
    let k = run sample_vault calls new_directory in
    (get_public_key sample_vault first_key_id k
      ≡ or_raise (l.public_keys (hex_of first_key_id)) key_not_found)
    × (get_private_key sample_vault first_key_id k
        ≡ or_raise (l.private_keys (hex_of first_key_id)) key_not_found)
unfolding HasWrappable
run_refines_example =
    run_refines sample_vault sample-Codecs sample-IsWrap draw passphrase (pos 3) bare new_directory
      calls first_key_id (tt, (is_wrappable 8, tt)) is_tree is_created is_default are_octets

pub is_sound : IsSound sample_vault new_directory
is_sound =
    Reaches-IsSound sample_vault sample-Codecs passphrase new_directory
      (created draw (pos 3) bare new_directory is_tree is_created)
