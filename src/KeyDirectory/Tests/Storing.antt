-- ===== src/KeyDirectory/Tests/Storing.antt =====
-- Keys and ids that are added, at concrete inputs.
use kem_make.Base.{Bytes, ◌≡◌, refl, some, [], ◌∷◌}
use kem_make.Errors.{ok, err, duplicate_key}
use kem_make.KeyDirectory.State.{hex_of}
use kem_make.KeyDirectory.Entries.{get_public_key}
use kem_make.KeyDirectory.Retrieval.{
  get_public_key-add_public_key, get_private_key-add_private_key, add_public_key_completes,
}
use kem_make.KeyDirectory.Pairs.{keypair_stored}
use kem_make.KeyDirectory.{wire_key, as_wire_key, add_public_key, add_private_key, get_private_key}
use kem_make.Samples.Vault.{sample_vault, sample-Codecs, sample-IsWrap, is_wrappable}
use kem_make.KeyDirectory.Derivation.{derive_kek}
use kem_make.KeyDirectory.Reachable.{add_public_key-IsSound}
use kem_make.Samples.Backend.{checksum}
use kem_make.Samples.Directory.{
  draw, new_directory, public_folder_free, private_folder_free, is_absent, sample_hashing_octets,
}
use kem_make.KeyDirectory.Tests.{key, first_key_id, is_hashed, is_sound}

pub is_added : (add_public_key sample_vault draw (wire_key key) new_directory).0 ≡ ok first_key_id
unfolding as_wire_key
is_added =
    add_public_key_completes sample_vault sample-Codecs draw (wire_key key) new_directory key
      first_key_id refl is_hashed (is_absent (hex_of first_key_id)).0 public_folder_free

get_public_key-add_public_key_example :
    let w = (add_public_key sample_vault draw (wire_key key) new_directory).1 in
    (get_public_key sample_vault first_key_id w ≡ ok key)
    × (add_public_key sample_vault draw (wire_key key) w ≡ (err duplicate_key, w))
unfolding as_wire_key
get_public_key-add_public_key_example =
    get_public_key-add_public_key sample_vault sample-Codecs draw draw (wire_key key) new_directory
      key first_key_id is_sound refl is_added

abbrev pair_wrapped : Bytes
pair_wrapped =
    checksum (
      derive_kek sample_vault new_directory.master_key draw.salt
        (sample_vault.asn1.dump_key_id first_key_id))
    ∷ 8
    ∷ []

is_wrapped :
    sample_vault.wrap
      (derive_kek sample_vault new_directory.master_key draw.salt
        (sample_vault.asn1.dump_key_id first_key_id))
      (8 ∷ [])
    ≡ some pair_wrapped
unfolding sample_vault
is_wrapped = refl

pub are_stored :
    let (q, w) = add_public_key sample_vault draw (wire_key key) new_directory in
    (add_private_key sample_vault draw key (8 ∷ []) w).0 ≡ ok first_key_id
unfolding as_wire_key
are_stored =
    (keypair_stored sample_vault sample-Codecs sample_hashing_octets sample-IsWrap draw draw
      (wire_key key) key first_key_id (8 ∷ []) pair_wrapped new_directory is_sound (is_wrappable 8)
      refl is_hashed (is_absent (hex_of first_key_id)).0 (is_absent (hex_of first_key_id)).1
      public_folder_free private_folder_free is_wrapped).1

keypair_stored_example :
    let (q, w) = add_public_key sample_vault draw (wire_key key) new_directory in
    let (r, u) = add_private_key sample_vault draw key (8 ∷ []) w in
    (q ≡ ok first_key_id)
    × (r ≡ ok first_key_id)
    × (get_public_key sample_vault first_key_id u ≡ ok key)
    × (get_private_key sample_vault first_key_id u ≡ ok (8 ∷ []))
unfolding as_wire_key
keypair_stored_example =
    keypair_stored sample_vault sample-Codecs sample_hashing_octets sample-IsWrap draw draw
      (wire_key key) key first_key_id (8 ∷ []) pair_wrapped new_directory is_sound (is_wrappable 8)
      refl is_hashed (is_absent (hex_of first_key_id)).0 (is_absent (hex_of first_key_id)).1
      public_folder_free private_folder_free is_wrapped

get_private_key-add_private_key_example :
    let k = (add_public_key sample_vault draw (wire_key key) new_directory).1 in
    let w = (add_private_key sample_vault draw key (8 ∷ []) k).1 in
    (get_private_key sample_vault first_key_id w ≡ ok (8 ∷ []))
    × (add_private_key sample_vault draw key (9 ∷ []) w ≡ (err duplicate_key, w))
get_private_key-add_private_key_example =
    get_private_key-add_private_key sample_vault sample-Codecs sample_hashing_octets sample-IsWrap
      draw draw key (8 ∷ []) (9 ∷ [])
      (add_public_key sample_vault draw (wire_key key) new_directory).1 first_key_id
      (add_public_key-IsSound sample_vault sample-Codecs draw (wire_key key) new_directory is_sound)
      (is_wrappable 8) are_stored
