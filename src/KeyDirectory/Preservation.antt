-- ===== src/KeyDirectory/Preservation.antt =====
-- What a write of a key directory keeps of its invariant.
use kem_make.Base.{
  ℕ, Bytes, Bool, true, false, ◌≡◌, ◌≢◌, ◌∙◌, some, List, [], ◌∷◌, ◌++◌, arith, All, All-append,
  if◌then◌else◌, bytes_eq, inl, inr, ◌⊎◌,
}
use kem_make.Base.Dict.{is_some}
use kem_make.Errors.{ok}
use kem_make.Wire.Messages.{KeyId}
use kem_make.KeyDirectory.Hex.{hex}
use kem_make.KeyDirectory.Records.{PublicKeyEntryData, StoredPrivateKeyEntry, AltIndexEntry}
use kem_make.KeyDirectory.Derivation.{Vault, derive_kek, digest_oid}
use kem_make.KeyDirectory.State.{
  KeyDirectory, Draw, hex_of, public_file, private_file, write_public, write_private,
}
use kem_make.KeyDirectory.Entries.{build_stored_public_key_entry, load_alt_index, alt_index_add}
use kem_make.KeyDirectory.Writes.{
  write_public_cases, write_private_cases, write_public_kept, write_public_elsewhere,
  write_private_elsewhere,
}
use kem_make.KeyDirectory.Index.{
  load_alt_index-same, alt_index_add_elsewhere, load_alt_index-alt_index_add,
}
use kem_make.KeyDirectory.Atomicity.{succeeded}
use kem_make.KeyDirectory.Invariant.{
  Codecs, IsOwn, HoldsPublic, HoldsPrivate, IsAlternate, IsSound, load_verified-built,
  load_private_entry-encode,
}

module _ (v : Vault) (codecs : Codecs v) where
  -- Directories under one master key, the second with more files: what is new there is sound.
  pub record Grows (k w : KeyDirectory) : Type 0 where
    pub same : w.master_key ≡ k.master_key
    pub public_cases :
        (h encoded : Bytes)
        → public_file h w ≡ some encoded
        → (public_file h k ≡ some encoded) ⊎ HoldsPublic v w h encoded
    pub public_kept :
        (h : Bytes) → is_some (public_file h k) ≡ true → is_some (public_file h w) ≡ true
    pub private_cases :
        (h encoded : Bytes)
        → private_file h w ≡ some encoded
        → (private_file h k ≡ some encoded) ⊎ HoldsPrivate v w h encoded

  pub Grows-IsSound :
      (k w : KeyDirectory)
      → Grows k w
      → IsSound v k
      → (index : List AltIndexEntry) → load_alt_index v w ≡ ok index
      → All (IsAlternate v) index
      → IsSound v w
  Grows-IsSound k w g s index read alternate = record {
    public_files = λ h encoded there. elim (g.public_cases h encoded there) [
      | inl old ↦
          let (content, good, own) = s.public_files h encoded old in
          (content, ground (arith, g.same, good), own)
      | inr new ↦ new
    ];
    private_files = λ h encoded there. elim (g.private_cases h encoded there) [
      | inl old ↦
          let (stored, loads, named, hashed, beside, bytes, wraps) =
            s.private_files h encoded old in
          (
            stored,
            loads,
            named,
            hashed,
            g.public_kept h beside,
            bytes,
            ground (arith, g.same, wraps),
          )
      | inr new ↦ new
    ];
    index = index;
    index_read = read;
    index_alternate = alternate;
  }

  pub write_public-IsSound :
      (draw : Draw) (primary : KeyId) (content : PublicKeyEntryData) (mode : ℕ) (k : KeyDirectory)
      → IsSound v k
      → IsOwn v (hex_of primary) content
      → IsSound v
          (write_public draw
            (hex_of primary)
            (v.records.public_entry.encode
              (build_stored_public_key_entry v k.master_key content (hex_of primary) draw.salt))
            mode
            k).1
  write_public-IsSound draw primary content mode k s own =
      let encoded =
        v.records.public_entry.encode
          (build_stored_public_key_entry v k.master_key content (hex_of primary) draw.salt) in
      let w = (write_public draw (hex_of primary) encoded mode k).1 in
      let (same, _, file) = write_public_elsewhere draw primary.key_hash encoded mode k [] in
      let grows : Grows k w = record {
        same = same;
        public_cases = λ h found there.
            elim (write_public_cases draw primary.key_hash encoded mode k h found there) [
              | inl old ↦ inl old
              | inr (named, new) ↦ inr (
                content,
                ground (
                  arith,
                  same,
                  named,
                  new,
                  load_verified-built v codecs k.master_key (hex_of primary) draw.salt content,
                ),
                ground (arith, named, own),
              )
            ];
        public_kept = write_public_kept draw primary.key_hash encoded mode k;
        private_cases = λ h found there.
            inl (
              ground (arith, there, write_public_elsewhere draw primary.key_hash encoded mode k h));
      } in
      Grows-IsSound k w grows s s.index (load_alt_index-same v k w same file ∙ s.index_read)
        s.index_alternate

  pub write_private-IsSound :
      (draw : Draw) (stored : StoredPrivateKeyEntry) (bytes : Bytes) (mode : ℕ) (k : KeyDirectory)
      → IsSound v k
      → v.wrap (derive_kek v k.master_key stored.kek_salt (v.asn1.dump_key_id stored.key_id)) bytes
        ≡ some stored.wrapped_key
      → stored.key_id.hash_algorithm.algorithm ≡ digest_oid v "sha256"
      → is_some (public_file (hex_of stored.key_id) k) ≡ true
      → IsSound v
          (write_private draw
            (hex_of stored.key_id)
            (v.records.private_entry.encode stored)
            mode
            k).1
  write_private-IsSound draw stored bytes mode k s wraps hashed beside =
      let bs = stored.key_id.key_hash in
      let encoded = v.records.private_entry.encode stored in
      let w = (write_private draw (hex bs) encoded mode k).1 in
      let (same, _, file) = write_private_elsewhere draw bs encoded mode k [] in
      let grows : Grows k w = record {
        same = same;
        public_cases = λ h found there.
            inl (ground (arith, there, write_private_elsewhere draw bs encoded mode k h));
        public_kept =
            λ h there. ground (arith, there, write_private_elsewhere draw bs encoded mode k h);
        private_cases = λ h found there.
            elim (write_private_cases draw bs encoded mode k h found there) [
              | inl old ↦ inl old
              | inr (named, new) ↦ inr (
                stored,
                ground (arith, new, load_private_entry-encode v codecs stored),
                named,
                hashed,
                ground (arith, named, beside, write_private_elsewhere draw bs encoded mode k h),
                bytes,
                ground (arith, same, wraps),
              )
            ];
      } in
      Grows-IsSound k w grows s s.index (load_alt_index-same v k w same file ∙ s.index_read)
        s.index_alternate

  All-grown :
      (done : Bool) (entry : AltIndexEntry) (index : List AltIndexEntry)
      → All (IsAlternate v) index
      → IsAlternate v entry
      → All (IsAlternate v) (if done then index ++ entry ∷ [] else index)
  All-grown true entry index all new =
      All-append (IsAlternate v) index (entry ∷ []) (all, (new, tt))
  All-grown false entry index all new = all

  pub alt_index_add-IsSound :
      (draw : Draw) (key_id : KeyId) (primary_hex : Bytes) (k : KeyDirectory)
      → IsSound v k
      → key_id.hash_algorithm.algorithm ≢ digest_oid v "sha256"
      → IsSound v (alt_index_add v draw key_id primary_hex k).1
  alt_index_add-IsSound draw key_id primary_hex k s other =
      let w = (alt_index_add v draw key_id primary_hex k).1 in
      let entry : AltIndexEntry = record { key_id = key_id; primary_hex = primary_hex } in
      let done = succeeded (alt_index_add v draw key_id primary_hex k).0 in
      let elsewhere = alt_index_add_elsewhere v draw key_id primary_hex k in
      let (same, _, _) = elsewhere [] in
      let grows : Grows k w = record {
        same = same;
        public_cases = λ h found there. inl (ground (arith, there, elsewhere h));
        public_kept = λ h there. ground (arith, there, elsewhere h);
        private_cases = λ h found there. inl (ground (arith, there, elsewhere h));
      } in
      Grows-IsSound k w grows s (if done then s.index ++ entry ∷ [] else s.index)
        (load_alt_index-alt_index_add v codecs.alt_index draw key_id primary_hex k s.index
          s.index_read)
        (All-grown done entry s.index s.index_alternate other)
