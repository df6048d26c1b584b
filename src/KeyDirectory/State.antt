-- ===== src/KeyDirectory/State.antt =====
-- src/kem_make/keystore.py: a key directory on disk, and the object that has it open.
use kem_make.Base.{ℕ, Bytes, Option, none, some, ◌++◌, codes}
use kem_make.Base.Dict.{Dict, get}
use kem_make.Errors.{Result, err, os_error}
use kem_make.Wire.Messages.{KeyId}
use kem_make.KeyDirectory.Hex.{hex}
use kem_make.KeyDirectory.Files.{File, Fault, atomic_write}

pub record Folder : Type 0 where
  pub mode : ℕ
  pub files : Dict File

-- The directory and its subfolders, where they exist.
pub record Disk : Type 0 where
  pub root : Option Folder
  pub public_folder : Option Folder
  pub private_folder : Option Folder

-- `KeyDirectory.__init__`; the path is that of the disk
pub record KeyDirectory : Type 0 where
  pub disk : Disk
  pub master_key : Bytes

-- What one write takes from the operating system: `os.urandom`, the characters of `mkstemp`, and
-- whether a system call fails; and what `create` does before its write.
pub record Draw : Type 0 where
  pub salt : Bytes
  pub chars : Bytes
  pub fault : Fault
  -- for `create`: how many of the six calls that make its folders return, where six or more are
  -- all, and the mode that `mkdir` gives
  pub folder_calls : ℕ
  pub folder_mode : ℕ

-- `f"{hex_id}.der"` and the names in the root
abbrev pub der_name : Bytes → Bytes
der_name hex_id = hex_id ++ codes ".der"

abbrev pub header_name : Bytes
header_name = codes "header.der"

abbrev pub alt_index_name : Bytes
alt_index_name = codes "alt_index.der"

-- `_hex_of`
abbrev pub hex_of : KeyId → Bytes
hex_of key_id = hex key_id.key_hash

-- `path.read_bytes()`, `none` where `path.exists()` is false
unfoldable pub read_file : Bytes → Option Folder → Option Bytes
read_file name none = none
read_file name (some folder) = elim (get name folder.files) [
  | none ↦ none
  | some f ↦ some f.content
]

-- `_atomic_write` into a folder; without the folder `mkstemp` raises
unfoldable pub write_file :
    Draw → Bytes → Bytes → ℕ → Option Folder → Result (Unit {0}) × Option Folder
write_file draw name content mode none = (err os_error, none)
write_file draw name content mode (some folder) =
    let (r, files) = atomic_write draw.fault draw.chars name content mode folder.files in
    (r, some (record folder { files = files }))

-- `_public_path`, `_private_path` and `_alt_index_path`, as what is read there
abbrev pub public_file : Bytes → KeyDirectory → Option Bytes
public_file hex_id k = read_file (der_name hex_id) k.disk.public_folder

abbrev pub private_file : Bytes → KeyDirectory → Option Bytes
private_file hex_id k = read_file (der_name hex_id) k.disk.private_folder

abbrev pub alt_index_file : KeyDirectory → Option Bytes
alt_index_file k = read_file alt_index_name k.disk.root

-- and as what is written there
unfoldable pub write_public :
    Draw → Bytes → Bytes → ℕ → KeyDirectory → Result (Unit {0}) × KeyDirectory
write_public draw hex_id content mode k =
    let (r, folder) = write_file draw (der_name hex_id) content mode k.disk.public_folder in
    (r, record k { disk = record (k.disk) { public_folder = folder } })

unfoldable pub write_private :
    Draw → Bytes → Bytes → ℕ → KeyDirectory → Result (Unit {0}) × KeyDirectory
write_private draw hex_id content mode k =
    let (r, folder) = write_file draw (der_name hex_id) content mode k.disk.private_folder in
    (r, record k { disk = record (k.disk) { private_folder = folder } })

unfoldable pub write_alt_index : Draw → Bytes → ℕ → KeyDirectory → Result (Unit {0}) × KeyDirectory
write_alt_index draw content mode k =
    let (r, folder) = write_file draw alt_index_name content mode k.disk.root in
    (r, record k { disk = record (k.disk) { root = folder } })
