-- ===== src/KeyDirectory/Opening.antt =====
-- src/kem_make/keystore.py: `create`, `open` and `close` of a `KeyDirectory`.
use kem_make.Base.{
  ℕ, zero, suc, ltb, Bytes, Bool, true, false, not, ◌||◌, Option, none, some, [], ◌∷◌, ◌==◌,
  bytes_eq, string_eq, if◌then◌else◌,
}
use kem_make.Base.Dict.{is_some}
use kem_make.Errors.{
  Result, ok, err, or_raise, raise_if, ◌>>=◌, ◌>>◌, os_error, key_directory_error, wrong_passphrase,
}
use kem_make.Wire.Messages.{Integer, pos}
use kem_make.KeyDirectory.Files.{owner_only, owner_folder}
use kem_make.KeyDirectory.Records.{KeystoreHeader, load_header}
use kem_make.KeyDirectory.Derivation.{Vault, derive_master_key, derive_check_tag, zeroed}
use kem_make.KeyDirectory.State.{
  Folder, Disk, KeyDirectory, Draw, header_name, read_file, write_file,
}

-- `not (path.exists() and any(path.iterdir()))`
unfoldable pub is_vacant : Disk → Bool
is_vacant disk = elim disk.root [
  | none ↦ true
  | some folder ↦ elim folder.files [
    | [] ↦ not (is_some disk.public_folder || is_some disk.private_folder)
    | f ∷ fs ↦ false
  ]
]

-- `mkdir(exist_ok=True)` and `set_mode`
unfoldable pub make_folder : Option Folder → Option Folder
make_folder none = some (record { mode = owner_folder; files = [] })
make_folder (some folder) = some (record folder { mode = owner_folder })

-- `mkdir` alone
unfoldable pub make_dir : ℕ → Option Folder → Option Folder
make_dir mode none = some (record { mode = mode; files = [] })
make_dir mode (some folder) = some folder

unfoldable pub make_folders : Disk → Disk
make_folders disk = record {
  root = make_folder disk.root;
  public_folder = make_folder disk.public_folder;
  private_folder = make_folder disk.private_folder;
}

-- The folders after some of the six calls, the next of which raises.
unfoldable pub make_up_to : ℕ → ℕ → Disk → Disk
make_up_to zero mode disk = disk
make_up_to (suc zero) mode disk = record disk { root = make_dir mode disk.root }
make_up_to (suc (suc zero)) mode disk = record disk { root = make_folder disk.root }
make_up_to (suc (suc (suc zero))) mode disk = record disk {
  root = make_folder disk.root;
  public_folder = make_dir mode disk.public_folder;
}
make_up_to (suc (suc (suc (suc zero)))) mode disk = record disk {
  root = make_folder disk.root;
  public_folder = make_folder disk.public_folder;
}
make_up_to (suc (suc (suc (suc (suc n))))) mode disk = record {
  root = make_folder disk.root;
  public_folder = make_folder disk.public_folder;
  private_folder = make_dir mode disk.private_folder;
}

-- `close`
unfoldable pub close : KeyDirectory → KeyDirectory
close k = record k { master_key = zeroed k.master_key }

module _ (v : Vault) where
  -- the last part of `create`
  unfoldable pub write_header : Draw → Bytes → Integer → Disk → Result KeyDirectory × Disk
  write_header draw passphrase iterations disk =
      elim (derive_master_key v passphrase draw.salt iterations) [
        | err e ↦ (err e, disk)
        | ok master_key ↦
            let header : KeystoreHeader = record {
              version = pos 0;
              kdf_salt = draw.salt;
              kdf_iterations = iterations;
              verification_tag = derive_check_tag v master_key draw.salt;
            } in
            let (r, root) =
              write_file draw header_name (v.records.header.encode header) owner_only disk.root in
            let written = record disk { root = root } in
            elim r [
              | err e ↦ (err e, written)
              | ok _ ↦ (ok (record { disk = written; master_key = master_key }), written)
            ]
      ]

  unfoldable pub create : Draw → Bytes → Integer → Disk → Result KeyDirectory × Disk
  create draw passphrase iterations disk =
      if is_vacant disk
      then (if ltb draw.folder_calls 6
          then (err os_error, make_up_to draw.folder_calls draw.folder_mode disk)
          else write_header draw passphrase iterations (make_folders disk))
      else (err key_directory_error, disk)

  unfoldable pub open_directory : Bytes → Disk → Result KeyDirectory
  open_directory passphrase disk = do
    encoded ← or_raise (read_file header_name disk.root) key_directory_error
    header ← load_header v.records encoded
    master_key ← derive_master_key v passphrase header.kdf_salt header.kdf_iterations
    raise_if (not (derive_check_tag v master_key header.kdf_salt == header.verification_tag))
        wrong_passphrase
    ok (record { disk = disk; master_key = master_key })
