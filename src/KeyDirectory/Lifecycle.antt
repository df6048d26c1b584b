-- ===== src/KeyDirectory/Lifecycle.antt =====
-- A key directory from its creation on, through every call that changes it.
use kem_make.Base.{Bytes, String, true, ◌≡◌, none, [], arith, bytes_eq, Option-cases, inl, inr}
use kem_make.Base.Dict.{get}
use kem_make.Errors.{Result, Result-cases, ok}
use kem_make.Wire.Messages.{Integer, KemPublicKey, KeyId}
use kem_make.KeyDirectory.Files.{owner_only}
use kem_make.KeyDirectory.Derivation.{Vault, derive_master_key}
use kem_make.KeyDirectory.State.{
  Disk, KeyDirectory, Draw, der_name, header_name, alt_index_name, read_file,
}
use kem_make.KeyDirectory.Entries.{load_alt_index}
use kem_make.KeyDirectory.Atomicity.{
  read_file-write_file, temporary-ne-header_name, temporary-ne-alt_index_name,
}
use kem_make.KeyDirectory.Invariant.{Codecs, IsSound}
use kem_make.KeyDirectory.Passphrases.{header_of}
use kem_make.KeyDirectory.Crashes.{Crashes, Crashes-IsSound}
use kem_make.KeyDirectory.Reachable.{
  add_public_key-IsSound, add_private_key-IsSound, key_id_for-IsSound,
}
use kem_make.KeyDirectory.{
  is_vacant, make_folder, make_folders, write_header, create, PublicInput, KeyReference,
  add_public_key, key_id_for, add_private_key,
}

-- A disk has the subfolders only with the folder that they are in.
abbrev pub IsTree : Disk → Type 0
IsTree disk = disk.root ≡ none → (disk.public_folder ≡ none) × (disk.private_folder ≡ none)

-- The calls that change a directory.
pub data Call : Type 0 where
  adds_public : Draw → PublicInput → Call
  adds_private : Draw → KemPublicKey → Bytes → Call
  makes_id : Draw → Draw → KeyReference → String → Call

module _ (v : Vault) where
  -- the directory after a call, whether it returns or raises
  unfoldable pub after : Call → KeyDirectory → KeyDirectory
  after (adds_public draw input) k = (add_public_key v draw input k).1
  after (adds_private draw public_key bytes) k = (add_private_key v draw public_key bytes k).1
  after (makes_id draw second reference digest) k = (key_id_for v draw second reference digest k).1

  -- what a call returns
  unfoldable pub outcome : Call → KeyDirectory → Result KeyId
  outcome (adds_public draw input) k = (add_public_key v draw input k).0
  outcome (adds_private draw public_key bytes) k = (add_private_key v draw public_key bytes k).0
  outcome (makes_id draw second reference digest) k =
      (key_id_for v draw second reference digest k).0

  -- The directories that were created with a passphrase and changed by calls and by crashes in the
  -- middle of one.
  pub data Reaches (passphrase : Bytes) : KeyDirectory → Type 0 where
    created :
        (draw : Draw) (iterations : Integer) (disk : Disk) (k : KeyDirectory)
        → IsTree disk
        → (create v draw passphrase iterations disk).0 ≡ ok k
        → Reaches passphrase k
    called :
        (call : Call) (k : KeyDirectory) → Reaches passphrase k → Reaches passphrase (after call k)
    crashed : (k w : KeyDirectory) → Reaches passphrase k → Crashes v k w → Reaches passphrase w

  -- a folder that was just made
  pub empty_files :
      (disk : Disk) (name : Bytes)
      → IsTree disk
      → is_vacant disk ≡ true
      → (read_file name (make_folders disk).root ≡ none)
        × (read_file name (make_folders disk).public_folder ≡ none)
        × (read_file name (make_folders disk).private_folder ≡ none)
  unfolding is_vacant make_folders make_folder read_file get
  empty_files disk name tree vacant = elim (Option-cases disk.root) [
    | inl absent ↦ ground (arith, tree absent)
    | inr (folder, there) ↦ ground arith
  ]

  module _ (codecs : Codecs v) where
    pub create-IsSound :
        (draw : Draw) (passphrase : Bytes) (iterations : Integer) (disk : Disk) (k : KeyDirectory)
        → IsTree disk
        → (create v draw passphrase iterations disk).0 ≡ ok k
        → IsSound v k
    unfolding create write_header load_alt_index
    create-IsSound draw passphrase iterations disk k tree e =
        elim (Result-cases (derive_master_key v passphrase draw.salt iterations)) [
          | inl (x, refused) ↦ absurd (ground arith)
          | inr (m, made) ↦
              let vacant : is_vacant disk ≡ true = ground arith in
              record {
                public_files = λ h encoded there.
                    absurd (ground (arith, empty_files disk (der_name h) tree vacant));
                private_files = λ h encoded there.
                    absurd (ground (arith, empty_files disk (der_name h) tree vacant));
                index = [];
                index_read = ground (
                  arith,
                  empty_files disk alt_index_name tree vacant,
                  read_file-write_file draw header_name
                      (v.records.header.encode (header_of v draw iterations m)) alt_index_name
                      owner_only (make_folders disk).root (temporary-ne-header_name draw.chars)
                      (temporary-ne-alt_index_name draw.chars),
                );
                index_alternate = tt;
              }
        ]

    pub after-IsSound : (call : Call) (k : KeyDirectory) → IsSound v k → IsSound v (after call k)
    unfolding after
    after-IsSound (adds_public draw input) k s = add_public_key-IsSound v codecs draw input k s
    after-IsSound (adds_private draw public_key bytes) k s =
        add_private_key-IsSound v codecs draw public_key bytes k s
    after-IsSound (makes_id draw second reference digest) k s =
        key_id_for-IsSound v codecs draw second reference digest k s

    -- With the round trips of `Codecs`: in every directory that was created by `create` in a vacant
    -- place and changed by any calls of `add_public_key`, `add_private_key` and `key_id_for`, each
    -- with any faults of the system calls, and by crashes in the middle of the write of one of the
    -- first two, every public file verifies under the name it has, and its first id is the SHA-256
    -- id of its key and spells this name; every private file is a canonical entry for the id that
    -- its name spells, the text in it is what some bytes were wrapped to with the key of that id,
    -- and a public file of that name is there; the index verifies and lists no SHA-256 id.
    pub Reaches-IsSound :
        (passphrase : Bytes) (k : KeyDirectory) → Reaches passphrase k → IsSound v k
    Reaches-IsSound passphrase _ (created draw iterations disk k tree e) =
        create-IsSound draw passphrase iterations disk k tree e
    Reaches-IsSound passphrase _ (called call k r) =
        after-IsSound call k (Reaches-IsSound passphrase k r)
    Reaches-IsSound passphrase _ (crashed k w r c) =
        Crashes-IsSound v codecs k w c (Reaches-IsSound passphrase k r)
