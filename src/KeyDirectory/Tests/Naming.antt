-- ===== src/KeyDirectory/Tests/Naming.antt =====
-- `key_id_for` at concrete inputs.
use kem_make.Base.{true, ◌≡◌, refl, none, [], ◌∷◌, arith}
use kem_make.Base.Dict.{get, set, erase}
use kem_make.Errors.{ok, err, os_error, key_not_found}
use kem_make.Wire.{build_key_id}
use kem_make.Wire.Messages.{KeyId}
use kem_make.KeyDirectory.Hex.{hex}
use kem_make.KeyDirectory.Files.{at_create, atomic_write, write_under, perform_all, perform}
use kem_make.KeyDirectory.Derivation.{derive_master_key, digest_oid}
use kem_make.KeyDirectory.State.{KeyDirectory, Draw, write_file, read_file, hex_of, public_file}
use kem_make.KeyDirectory.Entries.{get_public_key, has_id, build_stored_public_key_entry}
use kem_make.KeyDirectory.Invariant.{IsSound}
use kem_make.KeyDirectory.{
  create, make_folders, make_folder, is_vacant, write_header, wire_key, as_wire_key, add_public_key,
}
use kem_make.Samples.Messages.{sample_asn1}
use kem_make.Samples.Vault.{sample_vault, sample_hashing, sample-Codecs}
use kem_make.KeyDirectory.Derivation.{mac_public_key_data, derive_public_key_mac_key}
use kem_make.KeyDirectory.Reachable.{add_public_key-IsSound}
use kem_make.Samples.Backend.{checksum}
use kem_make.KeyDirectory.Tests.{key, first_key_id, is_hashed, is_sound}
use kem_make.Samples.Directory.{draw, new_directory, sample_hashing_octets}
use kem_make.Base.{bytes_discrete, string_discrete, any, bytes_eq}
use kem_make.Samples.Encoder.{der, pair, represented, list, octets, option, token}
use kem_make.Samples.Text.{char_text}
use kem_make.KeyDirectory.Atomicity.{succeeded}
use kem_make.Wire.{require_der}
use kem_make.KeyDirectory.Records.{load_public_entry}
use kem_make.KeyDirectory.State.{write_public, write_alt_index}
use kem_make.KeyDirectory.Entries.{
  has_id, find_entry, load_verified, verify_and_get_data, entry_with_id,
  load_public_entry_by_key_id, load_alt_index, alt_index_add,
}
use kem_make.KeyDirectory.Steps.{with_id, put_public, fresh_content}
use kem_make.KeyDirectory.Alternates.{key_id_for_findable}
use kem_make.KeyDirectory.Interrupted.{key_id_for_unfindable}
use kem_make.KeyDirectory.{
  by_id, by_key, prepare_public_key, load_referenced, find_digest, first_id, cache_key_id,
  key_id_for,
}

-- a directory with one public key
unfoldable with_key : KeyDirectory
with_key = (add_public_key sample_vault draw (wire_key key) new_directory).1

with_key-IsSound : IsSound sample_vault with_key
unfolding with_key
with_key-IsSound =
    add_public_key-IsSound sample_vault sample-Codecs draw (wire_key key) new_directory is_sound

is_loaded :
    load_referenced sample_vault (by_id first_key_id) with_key ≡ ok (fresh_content key first_key_id)
unfolding load_referenced load_public_entry_by_key_id entry_with_id load_verified
    verify_and_get_data with_key add_public_key prepare_public_key as_wire_key write_public
    write_file read_file build_stored_public_key_entry load_public_entry require_der has_id any
    new_directory create is_vacant make_folders make_folder write_header derive_master_key
    mac_public_key_data derive_public_key_mac_key sample_vault atomic_write write_under perform_all
    perform get set erase first_key_id build_key_id sample_hashing sample_asn1 checksum hex der pair
    represented list octets option token char_text bytes_discrete string_discrete
is_loaded = refl

-- the id of another digest
unfoldable wide_key_id : KeyId
wide_key_id = elim (build_key_id sample_asn1 sample_hashing key "sha512") [
  | ok kid ↦ kid
  | err e ↦ first_key_id
]

is_wide :
    (build_key_id sample_vault.asn1 sample_vault.hashing key "sha512" ≡ ok wide_key_id)
    × (find_digest (digest_oid sample_vault "sha512") (first_key_id ∷ []) ≡ none)
unfolding sample_vault build_key_id sample_hashing wide_key_id find_digest first_key_id
    string_discrete
is_wide = (refl, refl)

is_unlisted :
    (load_alt_index sample_vault with_key ≡ ok [])
    × (find_entry wide_key_id [] ≡ none)
    × (public_file (hex_of wide_key_id) with_key ≡ none)
unfolding load_alt_index find_entry wide_key_id load_referenced load_public_entry_by_key_id
    entry_with_id load_verified verify_and_get_data with_key add_public_key prepare_public_key
    as_wire_key write_public write_file read_file build_stored_public_key_entry load_public_entry
    require_der has_id any new_directory create is_vacant make_folders make_folder write_header
    derive_master_key mac_public_key_data derive_public_key_mac_key sample_vault atomic_write
    write_under perform_all perform get set erase first_key_id build_key_id sample_hashing
    sample_asn1 checksum hex der pair represented list octets option token char_text bytes_discrete
    string_discrete
is_unlisted = (refl, refl, refl)

-- the second write refused
abbrev refused : Draw
refused = record draw { fault = at_create }

are_written :
    (succeeded
        (put_public sample_vault draw first_key_id
          (with_id (fresh_content key first_key_id) wide_key_id)
          with_key).0
      ≡ true)
    × ((alt_index_add sample_vault refused wide_key_id
          (hex_of first_key_id)
          (put_public sample_vault draw first_key_id
            (with_id (fresh_content key first_key_id) wide_key_id)
            with_key).1).0
        ≡ err os_error)
    × (succeeded
          (alt_index_add sample_vault draw wide_key_id
            (hex_of first_key_id)
            (put_public sample_vault draw first_key_id
              (with_id (fresh_content key first_key_id) wide_key_id)
              with_key).1).0
        ≡ true)
unfolding alt_index_add load_alt_index write_alt_index wide_key_id load_referenced
    load_public_entry_by_key_id entry_with_id load_verified verify_and_get_data with_key
    add_public_key prepare_public_key as_wire_key write_public write_file read_file
    build_stored_public_key_entry load_public_entry require_der has_id any new_directory create
    is_vacant make_folders make_folder write_header derive_master_key mac_public_key_data
    derive_public_key_mac_key sample_vault atomic_write write_under perform_all perform get set
    erase first_key_id build_key_id sample_hashing sample_asn1 checksum hex der pair represented
    list octets option token char_text bytes_discrete string_discrete
are_written = (refl, refl, refl)

is_returned :
    (key_id_for sample_vault draw draw (by_id first_key_id) "sha512" with_key).0 ≡ ok wide_key_id
unfolding key_id_for cache_key_id first_id
is_returned = ground (arith, is_loaded, is_wide, are_written)

key_id_for_findable_example :
    let w = (key_id_for sample_vault draw draw (by_id first_key_id) "sha512" with_key).1 in
    (get_public_key sample_vault wide_key_id w ≡ ok key)
    × (key_id_for sample_vault draw draw (by_id wide_key_id) "sha512" w ≡ (ok wide_key_id, w))
key_id_for_findable_example =
    key_id_for_findable sample_vault sample-Codecs sample_hashing_octets draw draw draw draw
      (by_id first_key_id) "sha512" with_key (fresh_content key first_key_id) wide_key_id []
      with_key-IsSound is_loaded is_wide.1 is_unlisted.0 is_unlisted.1 is_unlisted.2 is_returned

key_id_for_unfindable_example :
    let (r, w) = key_id_for sample_vault draw refused (by_id first_key_id) "sha512" with_key in
    (r ≡ err os_error)
    × (key_id_for sample_vault draw draw (by_key key) "sha512" w ≡ (ok wide_key_id, w))
    × (get_public_key sample_vault wide_key_id w ≡ err key_not_found)
key_id_for_unfindable_example =
    key_id_for_unfindable sample_vault sample-Codecs draw refused draw draw (by_id first_key_id)
      "sha512" with_key (fresh_content key first_key_id) wide_key_id first_key_id [] os_error
      with_key-IsSound is_loaded is_wide.1 is_unlisted.0 is_unlisted.1 is_unlisted.2 is_wide.0
      is_hashed are_written.0 are_written.1
