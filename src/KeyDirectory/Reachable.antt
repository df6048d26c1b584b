-- ===== src/KeyDirectory/Reachable.antt =====
-- The calls that change a key directory, and the directories that they make.
use kem_make.Base.{
  Bytes, String, ◌≡◌, ◌≢◌, ◌∙◌, refl, sym, ap, subst, none, some, [], ◌∷◌, ◌++◌, arith, bytes_eq,
  string_eq, Option-cases, inl, inr,
}
use kem_make.Errors.{Result-cases, ok}
use kem_make.Wire.Messages.{KemPublicKey, KeyId}
use kem_make.KeyDirectory.Records.{PublicKeyEntryData}
use kem_make.KeyDirectory.Derivation.{Vault, digest_oid}
use kem_make.KeyDirectory.State.{KeyDirectory, Draw, hex_of, public_file}
use kem_make.KeyDirectory.Entries.{primary_key_id, load_verified, load_public_entry_by_key_id}
use kem_make.KeyDirectory.Integrity.{entry_with_id_found, load_public_entry_found}
use kem_make.KeyDirectory.Files.{owner_only, world_readable}
use kem_make.KeyDirectory.Steps.{
  fresh_content, with_id, sealed, add_public_key_steps, add_private_key_steps, cache_key_id_steps,
}
use kem_make.KeyDirectory.Invariant.{Codecs, IsOwn, IsSound, build_key_id-digest}
use kem_make.KeyDirectory.Preservation.{
  write_public-IsSound, write_private-IsSound, alt_index_add-IsSound,
}
use kem_make.KeyDirectory.{
  PublicInput, KeyReference, by_id, by_key, add_public_key, find_digest, first_id, load_referenced,
  cache_key_id, key_id_for, add_private_key,
}

module _ (v : Vault) (codecs : Codecs v) where
  -- the file that an entry is in
  pub record OwnEntry (k : KeyDirectory) (content : PublicKeyEntryData) : Type 0 where
    pub name : Bytes
    pub encoded : Bytes
    pub there : public_file name k ≡ some encoded
    pub good : load_verified v k.master_key name encoded ≡ ok content
    pub own : IsOwn v name content

  own_entry :
      (k : KeyDirectory) (content : PublicKeyEntryData) (h encoded : Bytes)
      → IsSound v k
      → public_file h k ≡ some encoded
      → load_verified v k.master_key h encoded ≡ ok content
      → OwnEntry k content
  own_entry k content h encoded s there good =
      let (found, same, own) = s.public_files h encoded there in
      record {
        name = h;
        encoded = encoded;
        there = there;
        good = good;
        own = ground (arith, own, same, good);
      }

  -- an entry that was loaded is the own entry of its file
  pub load_public_entry_own :
      (key_id : KeyId) (k : KeyDirectory) (content : PublicKeyEntryData)
      → IsSound v k
      → load_public_entry_by_key_id v key_id k ≡ ok content
      → OwnEntry k content
  load_public_entry_own key_id k content s e = elim (load_public_entry_found v k key_id content e) [
    | inl fast ↦
        let (encoded, there, good, listed) =
          entry_with_id_found v k key_id (hex_of key_id) content fast in
        own_entry k content (hex_of key_id) encoded s there good
    | inr (slow, hex_id, named, fast) ↦
        let (encoded, there, good, listed) = entry_with_id_found v k key_id hex_id content fast in
        own_entry k content hex_id encoded s there good
  ]

  pub load_referenced_own :
      (reference : KeyReference) (k : KeyDirectory) (content : PublicKeyEntryData)
      → IsSound v k
      → load_referenced v reference k ≡ ok content
      → OwnEntry k content
  unfolding load_referenced
  load_referenced_own (by_id key_id) k content s e = load_public_entry_own key_id k content s e
  load_referenced_own (by_key public_key) k content s e =
      elim (Result-cases (primary_key_id v public_key)) [
        | inl (x, refused) ↦ absurd (ground arith)
        | inr (key_id, made) ↦ load_public_entry_own key_id k content s (ground arith)
      ]

  pub add_public_key-IsSound :
      (draw : Draw) (input : PublicInput) (k : KeyDirectory)
      → IsSound v k
      → IsSound v (add_public_key v draw input k).1
  add_public_key-IsSound draw input k s = elim (add_public_key_steps v draw input k) [
    | inl (x, same) ↦ subst (IsSound v) (sym (ap (λ r. r.1) same)) s
    | inr a ↦ subst (IsSound v) (sym a.state) (
        write_public-IsSound v codecs draw a.primary (fresh_content a.public_key a.primary)
          world_readable k s
          (record {
            primary = a.primary;
            rest = [];
            listed = refl;
            named = refl;
            hashed = a.hashed;
          }))
  ]

  pub add_private_key-IsSound :
      (draw : Draw) (public_key : KemPublicKey) (bytes : Bytes) (k : KeyDirectory)
      → IsSound v k
      → IsSound v (add_private_key v draw public_key bytes k).1
  add_private_key-IsSound draw public_key bytes k s =
      elim (add_private_key_steps v draw public_key bytes k) [
        | inl (x, same) ↦ subst (IsSound v) (sym (ap (λ r. r.1) same)) s
        | inr a ↦ subst (IsSound v) (sym a.state) (
            write_private-IsSound v codecs draw (sealed draw a.primary a.wrapped) bytes owner_only k
              s a.wraps (build_key_id-digest v codecs public_key "sha256" a.primary a.hashed)
              a.beside)
      ]

  -- the id of the entry's name has the default digest
  find_digest-own :
      (h : Bytes) (content : PublicKeyEntryData) (digest : String)
      → IsOwn v h content
      → find_digest (digest_oid v digest) content.key_ids ≡ none
      → digest_oid v digest ≢ digest_oid v "sha256"
  unfolding find_digest
  find_digest-own h content digest own absent same =
      let default =
        build_key_id-digest v codecs content.public_key "sha256" own.primary own.hashed in
      ground (arith, own.listed, default)

  cache_key_id-IsSound :
      (draw second : Draw) (content : PublicKeyEntryData) (digest : String) (h : Bytes)
      (k : KeyDirectory)
      → IsSound v k
      → IsOwn v h content
      → digest_oid v digest ≢ digest_oid v "sha256"
      → IsSound v (cache_key_id v draw second content digest k).1
  unfolding first_id
  cache_key_id-IsSound draw second content digest h k s own other =
      elim (cache_key_id_steps v draw second content digest k) [
        | inl (x, same) ↦ subst (IsSound v) (sym (ap (λ r. r.1) same)) s
        | inr c ↦
            let written =
              write_public-IsSound v codecs draw c.primary (with_id content c.new_kid)
                world_readable k s
                (record {
                  primary = own.primary;
                  rest = own.rest ++ c.new_kid ∷ [];
                  listed = ground (arith, own.listed);
                  named = ground (arith, own.listed, c.first);
                  hashed = own.hashed;
                }) in
            elim c.state [
              | inl stopped ↦ subst (IsSound v) (sym stopped) written
              | inr (_, went_on) ↦ subst (IsSound v) (sym went_on) (
                  alt_index_add-IsSound v codecs second c.new_kid (hex_of c.primary) _ written
                    (λ same. other (
                      sym (build_key_id-digest v codecs content.public_key digest c.new_kid c.made)
                      ∙ same)))
            ]
      ]

  pub key_id_for-IsSound :
      (draw second : Draw) (reference : KeyReference) (digest : String) (k : KeyDirectory)
      → IsSound v k
      → IsSound v (key_id_for v draw second reference digest k).1
  unfolding key_id_for
  key_id_for-IsSound draw second reference digest k s =
      elim (Result-cases (load_referenced v reference k)) [
        | inl (x, refused) ↦ subst (IsSound v) (ground arith) s
        | inr (content, loaded) ↦
            elim (Option-cases (find_digest (digest_oid v digest) content.key_ids)) [
              | inr (kid, cached) ↦ subst (IsSound v) (ground arith) s
              | inl absent ↦
                  let entry = load_referenced_own reference k content s loaded in
                  subst (IsSound v) (ground arith) (
                    cache_key_id-IsSound draw second content digest entry.name k s entry.own
                      (find_digest-own entry.name content digest entry.own absent))
            ]
      ]
