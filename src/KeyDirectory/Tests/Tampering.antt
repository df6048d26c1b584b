-- ===== src/KeyDirectory/Tests/Tampering.antt =====
-- Files of a key directory that others wrote, or that are not whole, at concrete inputs.
use kem_make.Base.{Bytes, true, false, inl, ◌≡◌, ◌≢◌, refl, some, [], ◌∷◌, arith, codes, ◌⊎◌}
use kem_make.Base.Dict.{get}
use kem_make.Errors.{ok, err, public_key_integrity_error, wrong_passphrase}
use kem_make.Wire.{build_key_id}
use kem_make.Wire.Messages.{pos}
use kem_make.KeyDirectory.Hex.{hex, from_hex}
use kem_make.KeyDirectory.Files.{
  calls_in_parts, lose, at_sync, world_readable, atomic_write, perform_all, owner_folder,
}
use kem_make.KeyDirectory.Records.{StoredPrivateKeyEntry, PublicKeyEntryData}
use kem_make.KeyDirectory.Derivation.{derive_master_key, digest_oid}
use kem_make.KeyDirectory.State.{
  KeyDirectory, read_file, hex_of, der_name, public_file, private_file,
}
use kem_make.KeyDirectory.Entries.{get_public_key, has_id, build_stored_public_key_entry}
use kem_make.KeyDirectory.Passphrases.{open_directory-create}
use kem_make.KeyDirectory.Retrieval.{get_public_key-add_public_key, get_private_key-add_private_key}
use kem_make.KeyDirectory.{
  open_directory, wire_key, as_wire_key, add_public_key, add_private_key, get_private_key,
  private_hex,
}
use kem_make.Samples.Messages.{sample_asn1}
use kem_make.Samples.Vault.{
  sample_vault, sample_hashing, sample-Codecs, sample-IsWrap, is_wrappable,
  sample_header-RoundTrips,
}
use kem_make.KeyDirectory.Derivation.{
  derive_kek, derive_check_tag, mac_public_key_data, derive_public_key_mac_key,
}
use kem_make.KeyDirectory.Reachable.{add_public_key-IsSound}
use kem_make.Samples.Backend.{checksum, repeat}
use kem_make.KeyDirectory.Tests.{key, first_key_id, is_sound}
use kem_make.Samples.Directory.{
  bare, draw, passphrase, new_directory, is_created, sample_hashing_octets,
}
use kem_make.Base.{◌++◌, take, if◌then◌else◌, ◌==◌, ◌&&◌, bytes_eq}
use kem_make.Samples.Encoder.{der, pair, represented, list, octets, option, token}
use kem_make.Samples.Text.{char_text}
use kem_make.KeyDirectory.Tests.Storing.{is_added, are_stored}
use kem_make.KeyDirectory.Atomicity.{succeeded, atomic_write_cut_off, atomic_write_exact}
use kem_make.KeyDirectory.Integrity.{
  IsAuthentic, get_public_key-IsAuthentic, get_public_key_swapped, get_private_key_bound,
}

atomic_write_cut_off_example :
    let left = lose (codes "f") (0 ∷ []) (
      perform_all (codes "t") (take 3 (calls_in_parts (1 ∷ []) (codes "f") (7 ∷ 8 ∷ []) 384)) []) in
    (get (codes "f") left ≡ get (codes "f") [])
    ⊎ (get (codes "f") left ≡ some (record { content = 7 ∷ 8 ∷ []; mode = 384; synced = true }))
unfolding get
atomic_write_cut_off_example =
    atomic_write_cut_off (codes "t") (codes "f") (7 ∷ 8 ∷ []) (0 ∷ []) 384 (1 ∷ []) 3 []
      (λ e. ground (arith, e)) refl (λ f there. ground (arith, there))

atomic_write_exact_example :
    let r = atomic_write (at_sync false) (codes "t") (codes "f") (7 ∷ []) 384 [] in
    get (codes "f") r.1 ≡ (
      if succeeded r.0 && codes "f" == codes "f"
      then some (record { content = 7 ∷ []; mode = 384; synced = true })
      else get (codes "f") [])
atomic_write_exact_example =
    atomic_write_exact (at_sync false) (codes "t") (codes "f") (7 ∷ []) 384 [] (codes "f")
      (λ e. ground (arith, e)) (inl (λ e. ground (arith, e)))

abbrev wrong : Bytes
wrong = codes "shut"

abbrev other_key : Bytes
other_key = repeat 32 (checksum (wrong ++ draw.salt))

is_derived : derive_master_key sample_vault wrong draw.salt (pos 3) ≡ ok other_key
unfolding derive_master_key sample_vault
is_derived = refl

open_directory-create_example :
    (open_directory sample_vault passphrase new_directory.disk ≡ ok new_directory)
    × (open_directory sample_vault wrong new_directory.disk ≡ (
        if derive_check_tag sample_vault other_key draw.salt
          == derive_check_tag sample_vault new_directory.master_key draw.salt
        then ok (record { disk = new_directory.disk; master_key = other_key })
        else err wrong_passphrase))
open_directory-create_example =
    open_directory-create sample_vault sample_header-RoundTrips draw passphrase wrong other_key
      (pos 3) bare new_directory is_created is_derived

abbrev with_key : KeyDirectory
with_key = (add_public_key sample_vault draw (wire_key key) new_directory).1

abbrev with_pair : KeyDirectory
with_pair = (add_private_key sample_vault draw key (8 ∷ []) with_key).1

is_fetched : get_public_key sample_vault first_key_id with_key ≡ ok key
unfolding as_wire_key
is_fetched =
    (get_public_key-add_public_key sample_vault sample-Codecs draw draw (wire_key key) new_directory
      key first_key_id is_sound refl is_added).0

get_public_key-IsAuthentic_example :
    (content : PublicKeyEntryData) × (hex_id : Bytes) × IsAuthentic sample_vault with_key content
      hex_id
    × (has_id first_key_id content.key_ids ≡ true)
    × (content.public_key ≡ key)
get_public_key-IsAuthentic_example =
    get_public_key-IsAuthentic sample_vault with_key first_key_id key is_fetched

is_unwrapped : get_private_key sample_vault first_key_id with_pair ≡ ok (8 ∷ [])
is_unwrapped =
    (get_private_key-add_private_key sample_vault sample-Codecs sample_hashing_octets sample-IsWrap
      draw draw key (8 ∷ []) (9 ∷ []) with_key first_key_id
      (add_public_key-IsSound sample_vault sample-Codecs draw (wire_key key) new_directory is_sound)
      (is_wrappable 8) are_stored).0

get_private_key_bound_example :
    (hex_id : Bytes) × (stored : StoredPrivateKeyEntry) × (private_hex sample_vault first_key_id
        with_pair
      ≡ ok hex_id)
    × (private_file hex_id with_pair ≡ some (sample_vault.records.private_entry.encode stored))
    × (from_hex hex_id ≡ some stored.key_id.key_hash)
    × (stored.key_id.hash_algorithm.algorithm ≡ digest_oid sample_vault "sha256")
    × (sample_vault.unwrap
          (derive_kek sample_vault with_pair.master_key stored.kek_salt
            (sample_vault.asn1.dump_key_id stored.key_id))
          stored.wrapped_key
        ≡ some (8 ∷ []))
get_private_key_bound_example =
    get_private_key_bound sample_vault with_pair first_key_id (8 ∷ []) is_unwrapped

-- an entry sealed for another name
abbrev content : PublicKeyEntryData
content = record { public_key = key; key_ids = [] }

abbrev swapped : KeyDirectory
swapped = record {
  disk = record bare {
    public_folder = some (record {
      mode = owner_folder;
      files =
          (
            der_name (hex_of first_key_id),
            record {
              content = sample_vault.records.public_entry.encode (
                  build_stored_public_key_entry sample_vault (7 ∷ []) content (codes "00")
                    (1 ∷ []));
              mode = world_readable;
              synced = true;
            },
          )
          ∷ [];
    });
  };
  master_key = 7 ∷ [];
}

is_swapped :
    public_file (hex_of first_key_id) swapped
    ≡ some (
        sample_vault.records.public_entry.encode
          (build_stored_public_key_entry sample_vault (7 ∷ []) content (codes "00") (1 ∷ [])))
unfolding read_file get
is_swapped = ground arith

is_apart :
    mac_public_key_data sample_vault (7 ∷ []) content (1 ∷ []) (codes "00")
    ≢ mac_public_key_data sample_vault (7 ∷ []) content (1 ∷ []) (hex_of first_key_id)
unfolding mac_public_key_data derive_public_key_mac_key sample_vault first_key_id build_key_id
    sample_hashing sample_asn1 checksum hex der pair represented list octets option token char_text
is_apart e = ground (arith, e)

swapped_entry_refused :
    get_public_key sample_vault first_key_id swapped ≡ err public_key_integrity_error
swapped_entry_refused =
    get_public_key_swapped sample_vault swapped sample-Codecs.public_entry first_key_id content
      (codes "00") (1 ∷ []) is_swapped is_apart
