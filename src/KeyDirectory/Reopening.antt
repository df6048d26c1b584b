-- ===== src/KeyDirectory/Reopening.antt =====
-- `open`, on a directory that was in use.
use kem_make.Base.{
  ℕ, Bytes, String, ◌≡◌, ◌∙◌, refl, sym, ap, subst, [], ◌∷◌, ◌++◌, arith, bytes_eq, Option-cases,
  inl, inr,
}
use kem_make.Errors.{Result-cases, ok}
use kem_make.Wire.Messages.{KeyId}
use kem_make.Wire.{RoundTrips}
use kem_make.KeyDirectory.Files.{owner_only, world_readable}
use kem_make.KeyDirectory.Records.{PublicKeyEntryData}
use kem_make.KeyDirectory.Derivation.{Vault, digest_oid, mac_alt_index}
use kem_make.KeyDirectory.State.{
  KeyDirectory, Draw, header_name, alt_index_name, hex_of, read_file, write_alt_index, write_public,
  write_private,
}
use kem_make.KeyDirectory.Entries.{load_alt_index, alt_index_add}
use kem_make.KeyDirectory.Atomicity.{
  read_file-write_file, temporary-ne-header_name, temporary-ne-alt_index_name,
}
use kem_make.KeyDirectory.Passphrases.{created_header, open_directory-create}
use kem_make.KeyDirectory.Steps.{add_public_key_steps, add_private_key_steps, cache_key_id_steps}
use kem_make.KeyDirectory.Crashes.{Crashes, adding_public, adding_private, cut_public, cut_private}
use kem_make.KeyDirectory.Lifecycle.{
  Call, adds_public, adds_private, makes_id, after, Reaches, created, called, crashed,
}
use kem_make.KeyDirectory.{open_directory, find_digest, load_referenced, cache_key_id, key_id_for}

-- The header and the master key stay.
record Keeps (k w : KeyDirectory) : Type 0 where
  same : w.master_key ≡ k.master_key
  header : read_file header_name w.disk.root ≡ read_file header_name k.disk.root

Keeps-refl : (k : KeyDirectory) → Keeps k k
Keeps-refl k = record { same = refl; header = refl }

Keeps-trans : (j k w : KeyDirectory) → Keeps j k → Keeps k w → Keeps j w
Keeps-trans j k w a b = record { same = b.same ∙ a.same; header = b.header ∙ a.header }

write_public-Keeps :
    (draw : Draw) (h content : Bytes) (mode : ℕ) (k : KeyDirectory)
    → Keeps k (write_public draw h content mode k).1
unfolding write_public
write_public-Keeps draw h content mode k = record { same = refl; header = refl }

write_private-Keeps :
    (draw : Draw) (h content : Bytes) (mode : ℕ) (k : KeyDirectory)
    → Keeps k (write_private draw h content mode k).1
unfolding write_private
write_private-Keeps draw h content mode k = record { same = refl; header = refl }

write_alt_index-Keeps :
    (draw : Draw) (content : Bytes) (mode : ℕ) (k : KeyDirectory)
    → Keeps k (write_alt_index draw content mode k).1
unfolding write_alt_index
write_alt_index-Keeps draw content mode k = record {
  same = refl;
  header = ground (
    arith,
    read_file-write_file draw alt_index_name content header_name mode k.disk.root
        (temporary-ne-alt_index_name draw.chars) (temporary-ne-header_name draw.chars),
  );
}

module _ (v : Vault) where
  alt_index_add-Keeps :
      (draw : Draw) (key_id : KeyId) (primary_hex : Bytes) (k : KeyDirectory)
      → Keeps k (alt_index_add v draw key_id primary_hex k).1
  unfolding alt_index_add
  alt_index_add-Keeps draw key_id primary_hex k = elim (Result-cases (load_alt_index v k)) [
    | inl (x, refused) ↦ subst (Keeps k) (ground arith) (Keeps-refl k)
    | inr (existing, read) ↦
        let entries = existing ++ (record { key_id = key_id; primary_hex = primary_hex }) ∷ [] in
        let content = v.records.alt_index.encode (record {
          entries = entries;
          mac_salt = draw.salt;
          mac_tag = mac_alt_index v k.master_key entries draw.salt;
        }) in
        subst (Keeps k) (ground arith) (write_alt_index-Keeps draw content owner_only k)
  ]

  cache_key_id-Keeps :
      (draw second : Draw) (content : PublicKeyEntryData) (digest : String) (k : KeyDirectory)
      → Keeps k (cache_key_id v draw second content digest k).1
  cache_key_id-Keeps draw second content digest k =
      elim (cache_key_id_steps v draw second content digest k) [
        | inl (x, same) ↦ subst (Keeps k) (sym (ap (λ r. r.1) same)) (Keeps-refl k)
        | inr c ↦
            let written = write_public-Keeps draw (hex_of c.primary) _ world_readable k in
            elim c.state [
              | inl stopped ↦ subst (Keeps k) (sym stopped) written
              | inr (_, went_on) ↦ subst (Keeps k) (sym went_on) (
                  Keeps-trans k _ _ written
                    (alt_index_add-Keeps second c.new_kid (hex_of c.primary) _))
            ]
      ]

  after-Keeps : (call : Call) (k : KeyDirectory) → Keeps k (after v call k)
  unfolding after key_id_for
  after-Keeps (adds_public draw input) k = elim (add_public_key_steps v draw input k) [
    | inl (x, same) ↦ subst (Keeps k) (sym (ap (λ r. r.1) same)) (Keeps-refl k)
    | inr a ↦
        subst (Keeps k) (sym a.state)
          (write_public-Keeps draw (hex_of a.primary) _ world_readable k)
  ]
  after-Keeps (adds_private draw public_key bytes) k =
      elim (add_private_key_steps v draw public_key bytes k) [
        | inl (x, same) ↦ subst (Keeps k) (sym (ap (λ r. r.1) same)) (Keeps-refl k)
        | inr a ↦
            subst (Keeps k) (sym a.state)
              (write_private-Keeps draw (hex_of a.primary) _ owner_only k)
      ]
  after-Keeps (makes_id draw second reference digest) k =
      elim (Result-cases (load_referenced v reference k)) [
        | inl (x, refused) ↦ subst (Keeps k) (ground arith) (Keeps-refl k)
        | inr (content, loaded) ↦
            elim (Option-cases (find_digest (digest_oid v digest) content.key_ids)) [
              | inr (kid, cached) ↦ subst (Keeps k) (ground arith) (Keeps-refl k)
              | inl absent ↦
                  subst (Keeps k) (ground arith) (cache_key_id-Keeps draw second content digest k)
            ]
      ]

  Crashes-Keeps : (k w : KeyDirectory) → Crashes v k w → Keeps k w
  unfolding cut_public cut_private
  Crashes-Keeps k _ (adding_public n draw garbled input primary entry e) = record {
    same = refl;
    header = refl;
  }
  Crashes-Keeps k _ (adding_private n draw garbled public_key bytes primary stored e) = record {
    same = refl;
    header = refl;
  }

  open_directory-Keeps :
      (passphrase : Bytes) (k w : KeyDirectory)
      → Keeps k w
      → open_directory v passphrase k.disk ≡ ok k
      → open_directory v passphrase w.disk ≡ ok w
  unfolding open_directory
  open_directory-Keeps passphrase k w keeps e = ground (arith, keeps.same, keeps.header, e)

  -- With the header's round trip, a directory that was created with a passphrase, and changed by
  -- any calls with any faults of the system calls and by crashes in the write of an added key,
  -- opens with this passphrase to the same directory.
  pub open_directory-Reaches :
      RoundTrips v.records.header
      → (passphrase : Bytes) (k : KeyDirectory) → Reaches v passphrase k
      → open_directory v passphrase k.disk ≡ ok k
  open_directory-Reaches codec passphrase _ (created draw iterations disk k tree e) =
      let (own, _) = created_header v codec draw passphrase iterations disk k e in
      (open_directory-create v codec draw passphrase passphrase k.master_key iterations disk k e
        own).0
  open_directory-Reaches codec passphrase _ (called call k r) =
      open_directory-Keeps passphrase k _ (after-Keeps call k)
        (open_directory-Reaches codec passphrase k r)
  open_directory-Reaches codec passphrase _ (crashed k w r c) =
      open_directory-Keeps passphrase k w (Crashes-Keeps k w c)
        (open_directory-Reaches codec passphrase k r)
