-- ===== src/KeyDirectory/Index.antt =====
-- The index of alternate key ids, when an id was added to it.
use kem_make.Base.{
  Bytes, ◌≡◌, List, [], ◌∷◌, ◌++◌, arith, if◌then◌else◌, string_eq, bytes_eq, inl, inr,
}
use kem_make.Errors.{Result-cases, ok}
use kem_make.Wire.Messages.{KeyId}
use kem_make.Wire.{RoundTrips, require_der}
use kem_make.KeyDirectory.Files.{owner_only}
use kem_make.KeyDirectory.Records.{AltIndexEntry, AltIndexFile, load_alt_index_file}
use kem_make.KeyDirectory.Derivation.{Vault, mac_alt_index}
use kem_make.KeyDirectory.State.{
  KeyDirectory, Draw, alt_index_file, public_file, private_file, write_alt_index,
}
use kem_make.KeyDirectory.Entries.{load_alt_index, alt_index_add}
use kem_make.KeyDirectory.Atomicity.{succeeded}
use kem_make.KeyDirectory.Writes.{alt_index_file-write_alt_index, write_alt_index_elsewhere}

module _ (v : Vault) where
  -- the index is read from its file with the master key
  pub load_alt_index-same :
      (k w : KeyDirectory)
      → w.master_key ≡ k.master_key
      → alt_index_file w ≡ alt_index_file k
      → load_alt_index v w ≡ load_alt_index v k
  unfolding load_alt_index
  load_alt_index-same k w same file = ground arith

  -- nothing else changes
  pub alt_index_add_elsewhere :
      (draw : Draw) (key_id : KeyId) (primary_hex : Bytes) (k : KeyDirectory) (h : Bytes)
      → let w = (alt_index_add v draw key_id primary_hex k).1 in
        (w.master_key ≡ k.master_key)
        × (public_file h w ≡ public_file h k)
        × (private_file h w ≡ private_file h k)
  unfolding alt_index_add write_alt_index
  alt_index_add_elsewhere draw key_id primary_hex k h = elim (Result-cases (load_alt_index v k)) [
    | inl (x, refused) ↦ ground arith
    | inr (entries, read) ↦ ground arith
  ]

  -- the index that is read afterwards
  pub load_alt_index-alt_index_add :
      RoundTrips v.records.alt_index
      → (draw : Draw) (key_id : KeyId) (primary_hex : Bytes) (k : KeyDirectory)
        (index : List AltIndexEntry)
      → load_alt_index v k ≡ ok index
      → load_alt_index v (alt_index_add v draw key_id primary_hex k).1
        ≡ ok (
            if succeeded (alt_index_add v draw key_id primary_hex k).0
            then index ++ (record { key_id = key_id; primary_hex = primary_hex }) ∷ []
            else index)
  unfolding alt_index_add load_alt_index load_alt_index_file require_der
  load_alt_index-alt_index_add codec draw key_id primary_hex k index read =
      let entries = index ++ (record { key_id = key_id; primary_hex = primary_hex }) ∷ [] in
      let file : AltIndexFile = record {
        entries = entries;
        mac_salt = draw.salt;
        mac_tag = mac_alt_index v k.master_key entries draw.salt;
      } in
      ground (
        arith,
        codec file,
        alt_index_file-write_alt_index draw (v.records.alt_index.encode file) owner_only k,
        write_alt_index_elsewhere draw (v.records.alt_index.encode file) owner_only k [],
      )
