-- ===== src/KeyDirectory/Interrupted.antt =====
-- `key_id_for`, where the second of its two writes fails.
use kem_make.Base.{
  Bytes, String, true, ◌≡◌, ◌∙◌, refl, sym, subst, none, some, List, [], ◌∷◌, ◌++◌, arith, any,
  bytes_eq, string_eq,
}
use kem_make.Base.Dict.{is_some}
use kem_make.Errors.{Error, Result, ok, err, key_not_found}
use kem_make.Wire.Messages.{KeyId}
use kem_make.Wire.{build_key_id}
use kem_make.KeyDirectory.Files.{world_readable}
use kem_make.KeyDirectory.Records.{PublicKeyEntryData, AltIndexEntry}
use kem_make.KeyDirectory.Derivation.{Vault, digest_oid}
use kem_make.KeyDirectory.State.{KeyDirectory, Draw, hex_of, public_file}
use kem_make.KeyDirectory.Entries.{
  has_id, find_entry, primary_key_id, build_stored_public_key_entry, load_verified, load_alt_index,
  alt_index_lookup, entry_with_id, load_by_alt_index, load_public_entry_by_key_id, get_public_key,
  alt_index_add,
}
use kem_make.KeyDirectory.Atomicity.{succeeded}
use kem_make.KeyDirectory.Writes.{public_file-write_public, write_public_elsewhere}
use kem_make.KeyDirectory.Index.{
  load_alt_index-same, alt_index_add_elsewhere, load_alt_index-alt_index_add,
}
use kem_make.KeyDirectory.Invariant.{Codecs, IsSound, load_verified-built, build_key_id-digest}
use kem_make.KeyDirectory.Reachable.{load_referenced_own}
use kem_make.KeyDirectory.Alternates.{find_digest-added}
use kem_make.KeyDirectory.Steps.{with_id, put_public}
use kem_make.KeyDirectory.{
  KeyReference, by_key, find_digest, first_id, load_referenced, cache_key_id, key_id_for,
}

has_id-listed :
    (primary : KeyId) (rest : List KeyId) (kid : KeyId) (key_ids : List KeyId)
    → key_ids ≡ primary ∷ rest
    → has_id primary (key_ids ++ kid ∷ []) ≡ true
unfolding has_id any
has_id-listed primary rest kid key_ids listed = ground (arith, listed)

module _ (v : Vault) (codecs : Codecs v) where
  -- the entry that was written, without an id in the index that names it
  record Unindexed (kid : KeyId) (content : PublicKeyEntryData) (primary : KeyId) (w : KeyDirectory)
      : Type 0 where
    encoded : Bytes
    there : public_file (hex_of primary) w ≡ some encoded
    good : load_verified v w.master_key (hex_of primary) encoded ≡ ok (with_id content kid)
    elsewhere : public_file (hex_of kid) w ≡ none
    looked_up : alt_index_lookup v kid w ≡ ok none

  cut_off_Unindexed :
      (draw second : Draw) (content : PublicKeyEntryData) (kid primary : KeyId) (k : KeyDirectory)
      (index : List AltIndexEntry) (x : Error)
      → is_some (public_file (hex_of primary) k) ≡ true
      → load_alt_index v k ≡ ok index
      → find_entry kid index ≡ none
      → public_file (hex_of kid) k ≡ none
      → succeeded (put_public v draw primary (with_id content kid) k).0 ≡ true
      → let w = (put_public v draw primary (with_id content kid) k).1 in
        (alt_index_add v second kid (hex_of primary) w).0 ≡ err x
        → Unindexed kid content primary (alt_index_add v second kid (hex_of primary) w).1
  unfolding alt_index_lookup
  cut_off_Unindexed draw second content kid primary k index x here read unlisted absent done
        raised =
      let encoded = v.records.public_entry.encode (
        build_stored_public_key_entry v k.master_key (with_id content kid) (hex_of primary)
          draw.salt) in
      let w = (put_public v draw primary (with_id content kid) k).1 in
      let (same, _, file) =
        write_public_elsewhere draw primary.key_hash encoded world_readable k [] in
      let put = public_file-write_public draw primary.key_hash encoded world_readable k in
      let after = alt_index_add_elsewhere v second kid (hex_of primary) w in
      let reads = load_alt_index-same v k w same file in
      record {
        encoded = encoded;
        there = ground (arith, put (hex_of primary), after (hex_of primary), done);
        good = ground (
          arith,
          after [],
          same,
          load_verified-built v codecs k.master_key (hex_of primary) draw.salt
              (with_id content kid),
        );
        elsewhere = ground (arith, put (hex_of kid), after (hex_of kid), absent, here);
        looked_up = ground (
          arith,
          load_alt_index-alt_index_add v codecs.alt_index second kid (hex_of primary) w index
              (reads ∙ read),
          raised,
          unlisted,
        );
      }

  key_id_for_stopped :
      (draw second : Draw) (reference : KeyReference) (digest : String) (k : KeyDirectory)
      (content : PublicKeyEntryData) (kid primary : KeyId) (x : Error)
      → load_referenced v reference k ≡ ok content
      → find_digest (digest_oid v digest) content.key_ids ≡ none
      → build_key_id v.asn1 v.hashing content.public_key digest ≡ ok kid
      → first_id (content.key_ids ++ kid ∷ []) ≡ ok primary
      → succeeded (put_public v draw primary (with_id content kid) k).0 ≡ true
      → let w =
          (alt_index_add v second kid
            (hex_of primary)
            (put_public v draw primary (with_id content kid) k).1) in
        w.0 ≡ err x → key_id_for v draw second reference digest k ≡ (err x, w.1)
  unfolding key_id_for cache_key_id
  key_id_for_stopped draw second reference digest k content kid primary x loaded uncached made first
        done raised =
      ground (arith, loaded, uncached, made, first, done, raised)

  Unindexed-unfindable :
      (kid : KeyId) (content : PublicKeyEntryData) (primary : KeyId) (w : KeyDirectory)
      → Unindexed kid content primary w
      → get_public_key v kid w ≡ err key_not_found
  unfolding get_public_key load_public_entry_by_key_id load_by_alt_index entry_with_id
  Unindexed-unfindable kid content primary w u = ground (arith, u.elsewhere, u.looked_up)

  Unindexed-cached :
      (draw second : Draw) (kid : KeyId) (content : PublicKeyEntryData) (primary : KeyId)
      (rest : List KeyId) (digest : String) (w : KeyDirectory)
      → Unindexed kid content primary w
      → content.key_ids ≡ primary ∷ rest
      → primary_key_id v content.public_key ≡ ok primary
      → find_digest (digest_oid v digest) content.key_ids ≡ none
      → kid.hash_algorithm.algorithm ≡ digest_oid v digest
      → key_id_for v draw second (by_key content.public_key) digest w ≡ (ok kid, w)
  unfolding key_id_for load_referenced load_public_entry_by_key_id entry_with_id
  Unindexed-cached draw second kid content primary rest digest w u listed hashed uncached named =
      let own : has_id primary (content.key_ids ++ kid ∷ []) ≡ true =
        has_id-listed primary rest kid content.key_ids listed in
      ground (
        arith,
        u.there,
        u.good,
        own,
        hashed,
        named,
        uncached,
        find_digest-added kid content.key_ids,
      )

  -- A defect. With the round trips of `Codecs`, in a sound directory: for a digest that the key had
  -- no id of, and whose id no entry of the index and no public file had as its own, if `key_id_for`
  -- wrote the entry of a key with a new id, and the write of the index then raised: the call
  -- raises; called again for the key and this digest, it returns the id and writes nothing; but
  -- `get_public_key` raises KeyNotFound for this id.
  pub key_id_for_unfindable :
      (draw second later last : Draw) (reference : KeyReference) (digest : String)
      (k : KeyDirectory) (content : PublicKeyEntryData) (kid primary : KeyId)
      (index : List AltIndexEntry) (x : Error)
      → IsSound v k
      → load_referenced v reference k ≡ ok content
      → find_digest (digest_oid v digest) content.key_ids ≡ none
      → load_alt_index v k ≡ ok index
      → find_entry kid index ≡ none
      → public_file (hex_of kid) k ≡ none
      → build_key_id v.asn1 v.hashing content.public_key digest ≡ ok kid
      → primary_key_id v content.public_key ≡ ok primary
      → succeeded (put_public v draw primary (with_id content kid) k).0 ≡ true
      → (alt_index_add v second kid
          (hex_of primary)
          (put_public v draw primary (with_id content kid) k).1).0
        ≡ err x
      → let (r, w) = key_id_for v draw second reference digest k in
        (r ≡ err x)
        × (key_id_for v later last (by_key content.public_key) digest w ≡ (ok kid, w))
        × (get_public_key v kid w ≡ err key_not_found)
  unfolding first_id
  key_id_for_unfindable draw second later last reference digest k content kid primary index x s
        loaded uncached read unlisted absent made hashed done raised =
      let entry = load_referenced_own v codecs reference k content s loaded in
      let first : entry.own.primary ≡ primary = ground (arith, entry.own.hashed, hashed) in
      let here : is_some (public_file (hex_of primary) k) ≡ true =
        ground (arith, first, entry.own.named, entry.there) in
      let u =
        cut_off_Unindexed draw second content kid primary k index x here read unlisted absent done
          raised in
      let named = build_key_id-digest v codecs content.public_key digest kid made in
      let w =
        (alt_index_add v second kid (hex_of primary)
          (put_public v draw primary (with_id content kid) k).1).1 in
      let stops =
        key_id_for_stopped draw second reference digest k content kid primary x loaded uncached made
          (ground (arith, entry.own.listed, first)) done raised in
      subst
        (λ (s : Result KeyId × KeyDirectory).
          (s.0 ≡ err x)
          × (key_id_for v later last (by_key content.public_key) digest s.1 ≡ (ok kid, s.1))
          × (get_public_key v kid s.1 ≡ err key_not_found))
        (sym stops)
        (
          refl,
          Unindexed-cached later last kid content primary entry.own.rest digest w u
              (ground (arith, entry.own.listed, first)) hashed uncached named,
          Unindexed-unfindable kid content primary w u,
        )
