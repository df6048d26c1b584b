-- ===== src/KeyDirectory/Tests/Creating.antt =====
-- `create` where the header cannot be written.
use kem_make.Base.{true, ◌≡◌, refl, codes, arith}
use kem_make.Base.Dict.{get, set, erase}
use kem_make.Errors.{err, os_error, key_directory_error}
use kem_make.Wire.Messages.{pos}
use kem_make.KeyDirectory.Files.{at_create, atomic_write, write_under, perform_all, perform}
use kem_make.KeyDirectory.Derivation.{derive_master_key}
use kem_make.KeyDirectory.State.{Draw, write_file}
use kem_make.KeyDirectory.Stuck.{create_stuck}
use kem_make.KeyDirectory.{
  create, open_directory, make_folders, make_folder, is_vacant, write_header,
}
use kem_make.Samples.Vault.{sample_vault}
use kem_make.Samples.Directory.{bare, draw, passphrase, is_tree}

abbrev refused : Draw
refused = record draw { fault = at_create }

is_bare : is_vacant bare ≡ true
unfolding is_vacant
is_bare = refl

is_refused : (create sample_vault refused passphrase (pos 3) bare).0 ≡ err os_error
unfolding create is_vacant make_folders make_folder write_header write_file derive_master_key
    sample_vault atomic_write write_under perform_all perform get set erase
is_refused = refl

create_stuck_example :
    let w = (create sample_vault refused passphrase (pos 3) bare).1 in
    (create sample_vault draw (codes "again") (pos 3) w ≡ (err key_directory_error, w))
    × (open_directory sample_vault (codes "again") w ≡ err key_directory_error)
create_stuck_example =
    create_stuck sample_vault refused draw passphrase (codes "again") (pos 3) (pos 3) bare os_error
      is_tree is_bare (omega arith) is_refused
