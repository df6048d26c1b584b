-- ===== src/KeyDirectory/Crashes.antt =====
-- A machine that stops in the middle of a write into a key directory.
use kem_make.Base.{
  ℕ, none, Bytes, true, ◌≡◌, refl, sym, subst, ◌∙◌, some, [], append_cancel, codes, arith, bytes_eq,
  inl, inr,
}
use kem_make.Base.Dict.{is_some}
use kem_make.KeyDirectory.Files.{world_readable, owner_only}
use kem_make.Wire.Messages.{KeyId, KemPublicKey}
use kem_make.KeyDirectory.Records.{PublicKeyEntryData, StoredPrivateKeyEntry, StoredPublicKeyEntry}
use kem_make.KeyDirectory.Derivation.{Vault, derive_kek, digest_oid}
use kem_make.KeyDirectory.Entries.{build_stored_public_key_entry}
use kem_make.KeyDirectory.Index.{load_alt_index-same}
use kem_make.KeyDirectory.Invariant.{
  Codecs, IsOwn, IsSound, load_verified-built, load_private_entry-encode,
}
use kem_make.KeyDirectory.Preservation.{Grows, Grows-IsSound}
use kem_make.KeyDirectory.State.{Draw, KeyDirectory, hex_of, der_name, public_file, private_file}
use kem_make.Errors.{Result-cases, ok}
use kem_make.KeyDirectory.Steps.{fresh_content}
use kem_make.KeyDirectory.Entries.{primary_key_id}
use kem_make.KeyDirectory.Invariant.{build_key_id-digest}
use kem_make.KeyDirectory.{PublicInput, as_wire_key, prepare_public_key, prepare_private_key}
use kem_make.KeyDirectory.CutWrites.{cut_file, read_file-cut_file, cut_file_kept}
use kem_make.KeyDirectory.Atomicity.{temporary-ne-name}

-- The directory after a crash in `write_public`, and in `write_private`.
unfoldable pub cut_public : ℕ → Draw → Bytes → Bytes → Bytes → ℕ → KeyDirectory → KeyDirectory
cut_public n draw garbled hex_id content mode k = record k {
  disk = record (k.disk) {
    public_folder = cut_file n draw garbled (der_name hex_id) content mode k.disk.public_folder;
  };
}

unfoldable pub cut_private : ℕ → Draw → Bytes → Bytes → Bytes → ℕ → KeyDirectory → KeyDirectory
cut_private n draw garbled hex_id content mode k = record k {
  disk = record (k.disk) {
    private_folder = cut_file n draw garbled (der_name hex_id) content mode k.disk.private_folder;
  };
}

-- A crash in the write of one of the calls, after some of its system calls; a content that was not
-- synced is lost.
pub data Crashes (v : Vault) (k : KeyDirectory) : KeyDirectory → Type 0 where
  adding_public :
      (n : ℕ) (draw : Draw) (garbled : Bytes) (input : PublicInput) (primary : KeyId)
      (entry : StoredPublicKeyEntry)
      → prepare_public_key v draw input k ≡ ok (primary, entry)
      → Crashes v k (
          cut_public n draw garbled
            (hex_of primary)
            (v.records.public_entry.encode entry)
            world_readable
            k)
  adding_private :
      (n : ℕ) (draw : Draw) (garbled : Bytes) (public_key : KemPublicKey) (bytes : Bytes)
      (primary : KeyId) (stored : StoredPrivateKeyEntry)
      → prepare_private_key v draw public_key bytes k ≡ ok (primary, stored)
      → Crashes v k (
          cut_private n draw garbled
            (hex_of primary)
            (v.records.private_entry.encode stored)
            owner_only
            k)

-- names of files are the names of keys
same_name : (a b : Bytes) → der_name a ≡ der_name b → a ≡ b
same_name a b e = append_cancel a b (codes ".der") e

module _ (v : Vault) (codecs : Codecs v) where
  cut_public-IsSound :
      (n : ℕ) (draw : Draw) (garbled : Bytes) (primary : KeyId) (content : PublicKeyEntryData)
      (mode : ℕ) (k : KeyDirectory)
      → IsSound v k
      → public_file (hex_of primary) k ≡ none
      → IsOwn v (hex_of primary) content
      → IsSound v (
          cut_public n draw garbled
            (hex_of primary)
            (v.records.public_entry.encode
              (build_stored_public_key_entry v k.master_key content (hex_of primary) draw.salt))
            mode
            k)
  unfolding cut_public
  cut_public-IsSound n draw garbled primary content mode k s new own =
      let h = hex_of primary in
      let encoded =
        v.records.public_entry.encode
          (build_stored_public_key_entry v k.master_key content h draw.salt) in
      let w = cut_public n draw garbled h encoded mode k in
      let other = temporary-ne-name draw.chars h in
      let grows : Grows v codecs k w = record {
        same = refl;
        public_cases = λ j found there.
            elim (read_file-cut_file n draw garbled (der_name h) encoded mode k.disk.public_folder
              (der_name j) found other (temporary-ne-name draw.chars j) new there) [
                | inl old ↦ inl old
                | inr (named, written) ↦ inr (
                  content,
                  ground (
                    arith,
                    same_name h j named,
                    written,
                    load_verified-built v codecs k.master_key h draw.salt content,
                  ),
                  ground (arith, same_name h j named, own),
                )
              ];
        public_kept = λ j there.
            cut_file_kept n draw garbled (der_name h) encoded mode k.disk.public_folder (der_name j)
              (temporary-ne-name draw.chars j) new there;
        private_cases = λ j found there. inl there;
      } in
      Grows-IsSound v codecs k w grows s s.index
        (load_alt_index-same v k w refl refl ∙ s.index_read) s.index_alternate

  cut_private-IsSound :
      (n : ℕ) (draw : Draw) (garbled : Bytes) (stored : StoredPrivateKeyEntry) (bytes : Bytes)
      (mode : ℕ) (k : KeyDirectory)
      → IsSound v k
      → private_file (hex_of stored.key_id) k ≡ none
      → v.wrap (derive_kek v k.master_key stored.kek_salt (v.asn1.dump_key_id stored.key_id)) bytes
        ≡ some stored.wrapped_key
      → stored.key_id.hash_algorithm.algorithm ≡ digest_oid v "sha256"
      → is_some (public_file (hex_of stored.key_id) k) ≡ true
      → IsSound v (
          cut_private n draw garbled
            (hex_of stored.key_id)
            (v.records.private_entry.encode stored)
            mode
            k)
  unfolding cut_private
  cut_private-IsSound n draw garbled stored bytes mode k s new wraps hashed beside =
      let h = hex_of stored.key_id in
      let encoded = v.records.private_entry.encode stored in
      let w = cut_private n draw garbled h encoded mode k in
      let grows : Grows v codecs k w = record {
        same = refl;
        public_cases = λ j found there. inl there;
        public_kept = λ j there. there;
        private_cases = λ j found there.
            elim (read_file-cut_file n draw garbled (der_name h) encoded mode k.disk.private_folder
              (der_name j) found (temporary-ne-name draw.chars h) (temporary-ne-name draw.chars j)
              new there) [
                | inl old ↦ inl old
                | inr (named, written) ↦ inr (
                  stored,
                  ground (arith, written, load_private_entry-encode v codecs stored),
                  same_name h j named,
                  hashed,
                  ground (arith, same_name h j named, beside),
                  bytes,
                  wraps,
                )
              ];
      } in
      Grows-IsSound v codecs k w grows s s.index
        (load_alt_index-same v k w refl refl ∙ s.index_read) s.index_alternate

  prepared_public :
      (draw : Draw) (input : PublicInput) (k : KeyDirectory) (primary : KeyId)
      (entry : StoredPublicKeyEntry)
      → prepare_public_key v draw input k ≡ ok (primary, entry)
      → (public_key : KemPublicKey) × (primary_key_id v public_key ≡ ok primary)
        × (public_file (hex_of primary) k ≡ none)
        × (entry
            ≡ build_stored_public_key_entry v k.master_key
                (fresh_content public_key primary)
                (hex_of primary)
                draw.salt)
  unfolding prepare_public_key
  prepared_public draw input k primary entry e = elim (Result-cases (as_wire_key input)) [
    | inl (x, refused) ↦ absurd (ground (arith, refused, e))
    | inr (public_key, wire) ↦
        (public_key, ground (arith, e, wire), ground (arith, e, wire), ground (arith, e, wire))
  ]

  prepared_private :
      (draw : Draw) (public_key : KemPublicKey) (bytes : Bytes) (k : KeyDirectory) (primary : KeyId)
      (stored : StoredPrivateKeyEntry)
      → prepare_private_key v draw public_key bytes k ≡ ok (primary, stored)
      → (primary_key_id v public_key ≡ ok primary)
        × (stored.key_id ≡ primary)
        × (v.wrap
              (derive_kek v k.master_key stored.kek_salt (v.asn1.dump_key_id stored.key_id))
              bytes
            ≡ some stored.wrapped_key)
        × (is_some (public_file (hex_of stored.key_id) k) ≡ true)
        × (private_file (hex_of stored.key_id) k ≡ none)
  unfolding prepare_private_key
  prepared_private draw public_key bytes k primary stored e =
      elim (Result-cases (primary_key_id v public_key)) [
        | inl (x, refused) ↦ absurd (ground (arith, refused, e))
        | inr (kid, hashed) ↦ (
          ground (arith, e, hashed),
          ground (arith, e, hashed),
          ground (arith, e, hashed),
          ground (arith, e, hashed),
          ground (arith, e, hashed),
        )
      ]

  -- a sound directory stays sound
  pub Crashes-IsSound : (k w : KeyDirectory) → Crashes v k w → IsSound v k → IsSound v w
  Crashes-IsSound k _ (adding_public n draw garbled input primary entry e) s =
      let (public_key, hashed, new, made) = prepared_public draw input k primary entry e in
      subst
        (λ x. IsSound v (
          cut_public n draw garbled (hex_of primary) (v.records.public_entry.encode x)
            world_readable k))
        (sym made)
        (cut_public-IsSound n draw garbled primary (fresh_content public_key primary) world_readable
          k s new
          (record { primary = primary; rest = []; listed = refl; named = refl; hashed = hashed }))
  Crashes-IsSound k _ (adding_private n draw garbled public_key bytes primary stored e) s =
      let (hashed, same, wraps, beside, new) =
        prepared_private draw public_key bytes k primary stored e in
      subst
        (λ j. IsSound v (
          cut_private n draw garbled (hex_of j) (v.records.private_entry.encode stored) owner_only
            k))
        same
        (cut_private-IsSound n draw garbled stored bytes owner_only k s new wraps
          (ground (arith, same, build_key_id-digest v codecs public_key "sha256" primary hashed))
          beside)
