-- ===== src/KeyDirectory/Ledger.antt =====
-- The abstract view of a key directory: the keys that the calls added, without files, entries,
-- tags or an index; and the calls as changes of it.
use kem_make.Base.{Bytes, ◌≡◌, refl, Option, none, some, arith, if◌then◌else◌, ◌==◌, bytes_eq}
use kem_make.Errors.{Result, ok, err}
use kem_make.Wire.Messages.{KemPublicKey, KeyId}
use kem_make.KeyDirectory.Files.{world_readable, owner_only}
use kem_make.KeyDirectory.Records.{PublicKeyEntryData, StoredPrivateKeyEntry}
use kem_make.KeyDirectory.Derivation.{Vault, derive_kek}
use kem_make.KeyDirectory.State.{KeyDirectory, Draw, hex_of, write_public, write_private}
use kem_make.KeyDirectory.Entries.{build_stored_public_key_entry, alt_index_add}
use kem_make.KeyDirectory.Atomicity.{succeeded}
use kem_make.KeyDirectory.Writes.{
  public_file-write_public, private_file-write_private, write_public_elsewhere,
  write_private_elsewhere,
}
use kem_make.KeyDirectory.Index.{alt_index_add_elsewhere}
use kem_make.KeyDirectory.Invariant.{Codecs, load_verified-built, load_private_entry-encode}
use kem_make.KeyDirectory.Views.{public_view, private_view}
use kem_make.KeyDirectory.Steps.{put_public, put_private}
use kem_make.KeyDirectory.Lifecycle.{Call, adds_public, adds_private, makes_id}
use kem_make.KeyDirectory.{as_wire_key}

-- The keys by the names of their ids.
pub record Ledger : Type 0 where
  pub public_keys : Bytes → Option KemPublicKey
  pub private_keys : Bytes → Option Bytes

abbrev pub empty_ledger : Ledger
empty_ledger = record { public_keys = λ h. none; private_keys = λ h. none }

abbrev pub enter {ℓ} : {A : Type ℓ} → Bytes → A → (Bytes → Option A) → Bytes → Option A
enter name a f h = if name == h then some a else f h

-- What a call that returned an id has changed; a call that raised has changed nothing.
unfoldable pub book : Call → Result KeyId → Ledger → Ledger
book (adds_public draw input) (ok kid) l = elim (as_wire_key input) [
  | err e ↦ l
  | ok public_key ↦ record l { public_keys = enter (hex_of kid) public_key l.public_keys }
]
book (adds_private draw public_key bytes) (ok kid) l = record l {
  private_keys = enter (hex_of kid) bytes l.private_keys;
}
book (makes_id draw second reference digest) (ok kid) l = l
book call (err e) l = l

abbrev pub as_found : Option Bytes → Option (Result Bytes)
as_found none = none
as_found (some bytes) = some (ok bytes)

module _ (v : Vault) where
  -- the two maps of a directory are those of a ledger
  pub record Shows (k : KeyDirectory) (l : Ledger) : Type 0 where
    pub public_keys : (h : Bytes) → public_view v h k ≡ l.public_keys h
    pub private_keys : (h : Bytes) → private_view v h k ≡ as_found (l.private_keys h)

  module _ (codecs : Codecs v) where
    pub public_view-put_public :
        (draw : Draw) (primary : KeyId) (content : PublicKeyEntryData) (k : KeyDirectory)
        (h : Bytes)
        → public_view v h (put_public v draw primary content k).1 ≡ (
            if succeeded (put_public v draw primary content k).0
            then enter (hex_of primary) content.public_key (λ j. public_view v j k) h
            else public_view v h k)
    unfolding public_view
    public_view-put_public draw primary content k h =
        let encoded =
          v.records.public_entry.encode
            (build_stored_public_key_entry v k.master_key content (hex_of primary) draw.salt) in
        ground (
          arith,
          public_file-write_public draw primary.key_hash encoded world_readable k h,
          write_public_elsewhere draw primary.key_hash encoded world_readable k h,
          load_verified-built v codecs k.master_key (hex_of primary) draw.salt content,
        )

    pub private_view-put_private :
        (draw : Draw) (stored : StoredPrivateKeyEntry) (bytes : Bytes) (k : KeyDirectory)
        (h : Bytes)
        → v.unwrap
            (derive_kek v k.master_key stored.kek_salt (v.asn1.dump_key_id stored.key_id))
            stored.wrapped_key
          ≡ some bytes
        → private_view v h (put_private v draw stored k).1 ≡ (
            if succeeded (put_private v draw stored k).0
            then enter (hex_of stored.key_id) (ok bytes) (λ j. private_view v j k) h
            else private_view v h k)
    unfolding private_view
    private_view-put_private draw stored bytes k h unwraps =
        let encoded = v.records.private_entry.encode stored in
        ground (
          arith,
          private_file-write_private draw stored.key_id.key_hash encoded owner_only k h,
          write_private_elsewhere draw stored.key_id.key_hash encoded owner_only k h,
          load_private_entry-encode v codecs stored,
          unwraps,
        )

  -- the other map stays
  pub private_view-put_public :
      (draw : Draw) (primary : KeyId) (content : PublicKeyEntryData) (k : KeyDirectory) (h : Bytes)
      → private_view v h (put_public v draw primary content k).1 ≡ private_view v h k
  unfolding private_view write_public
  private_view-put_public draw primary content k h = refl

  pub public_view-put_private :
      (draw : Draw) (stored : StoredPrivateKeyEntry) (k : KeyDirectory) (h : Bytes)
      → public_view v h (put_private v draw stored k).1 ≡ public_view v h k
  unfolding public_view write_private
  public_view-put_private draw stored k h = refl

  pub alt_index_add-views :
      (draw : Draw) (key_id : KeyId) (name : Bytes) (k : KeyDirectory) (h : Bytes)
      → (public_view v h (alt_index_add v draw key_id name k).1 ≡ public_view v h k)
        × (private_view v h (alt_index_add v draw key_id name k).1 ≡ private_view v h k)
  unfolding public_view private_view
  alt_index_add-views draw key_id name k h =
      let elsewhere = alt_index_add_elsewhere v draw key_id name k h in
      (ground (arith, elsewhere), ground (arith, elsewhere))
