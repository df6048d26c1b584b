-- ===== src/Samples/Directory.antt =====
-- A key directory that was just created, over the toy cryptography.
use kem_make.Base.{Bytes, ◌≡◌, refl, none, [], ◌∷◌, codes}
use kem_make.Base.Dict.{get, set, erase}
use kem_make.Errors.{ok, err}
use kem_make.Wire.Messages.{pos}
use kem_make.KeyDirectory.Files.{
  smooth, atomic_write, write_under, perform_all, perform, owner_folder,
}
use kem_make.KeyDirectory.Derivation.{derive_master_key}
use kem_make.KeyDirectory.State.{
  Disk, KeyDirectory, Draw, write_file, read_file, public_file, private_file,
}
use kem_make.KeyDirectory.Lifecycle.{IsTree}
use kem_make.KeyDirectory.Retrieval.{IsClear}
use kem_make.KeyDirectory.Alternates.{IsOctetHash}
use kem_make.KeyDirectory.{create, make_folders, make_folder, is_vacant, write_header}
use kem_make.Samples.Vault.{sample_vault, sample_hashing-IsOctetHash}

abbrev pub bare : Disk
bare = record { root = none; public_folder = none; private_folder = none }

abbrev pub draw : Draw
draw = record {
  salt = 1 ∷ 2 ∷ [];
  chars = codes "a1";
  fault = smooth;
  folder_calls = 6;
  folder_mode = 493;
}

abbrev pub passphrase : Bytes
passphrase = codes "open"

-- the directory that `create` makes
unfoldable pub new_directory : KeyDirectory
new_directory = elim (create sample_vault draw passphrase (pos 3) bare).0 [
  | ok k ↦ k
  | err e ↦ record { disk = bare; master_key = [] }
]

pub is_created : (create sample_vault draw passphrase (pos 3) bare).0 ≡ ok new_directory
unfolding new_directory create is_vacant make_folders make_folder write_header write_file
    derive_master_key sample_vault atomic_write write_under perform_all perform get set erase
is_created = refl

pub is_tree : IsTree bare
is_tree e = (refl, refl)

pub public_folder_free : IsClear draw new_directory.disk.public_folder
unfolding new_directory create is_vacant make_folders make_folder write_header write_file
    derive_master_key sample_vault atomic_write write_under perform_all perform get set erase
public_folder_free = record {
  files = record { mode = owner_folder; files = [] };
  exists = refl;
  faultless = refl;
  free = refl;
}

pub private_folder_free : IsClear draw new_directory.disk.private_folder
unfolding new_directory create is_vacant make_folders make_folder write_header write_file
    derive_master_key sample_vault atomic_write write_under perform_all perform get set erase
private_folder_free = record {
  files = record { mode = owner_folder; files = [] };
  exists = refl;
  faultless = refl;
  free = refl;
}

pub is_absent :
    (h : Bytes) → (public_file h new_directory ≡ none) × (private_file h new_directory ≡ none)
unfolding new_directory create is_vacant make_folders make_folder write_header write_file
    derive_master_key sample_vault atomic_write write_under perform_all perform get set erase
    read_file
is_absent h = (refl, refl)

-- of the vault's own hashing
pub sample_hashing_octets : IsOctetHash sample_vault.hashing
unfolding sample_vault
sample_hashing_octets = sample_hashing-IsOctetHash
