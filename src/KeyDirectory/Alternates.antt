-- ===== src/KeyDirectory/Alternates.antt =====
-- `key_id_for` with a digest that the key has no id of yet.
use kem_make.Base.{
  Bytes, String, true, ◌≡◌, ◌∙◌, sym, ap, subst, none, some, List, [], ◌∷◌, ◌++◌, arith, All, any,
  ◌<◌, bytes_eq, string_eq, Option-cases, inl, inr,
}
use kem_make.Base.Dict.{is_some}
use kem_make.Errors.{ok}
use kem_make.Wire.Messages.{KemPublicKey, KeyId}
use kem_make.Wire.{Hashing, build_key_id}
use kem_make.KeyDirectory.Hex.{hex, all-hex}
use kem_make.KeyDirectory.Files.{world_readable}
use kem_make.KeyDirectory.Records.{PublicKeyEntryData, AltIndexEntry}
use kem_make.KeyDirectory.Derivation.{Vault, digest_oid}
use kem_make.KeyDirectory.State.{KeyDirectory, Draw, hex_of, public_file}
use kem_make.KeyDirectory.Entries.{
  is_same_id, has_id, find_entry, decode_ascii, primary_key_id, build_stored_public_key_entry,
  load_verified, load_alt_index, alt_index_lookup, entry_with_id, load_by_alt_index,
  load_public_entry_by_key_id, get_public_key, alt_index_add,
}
use kem_make.KeyDirectory.Atomicity.{succeeded}
use kem_make.KeyDirectory.Writes.{public_file-write_public, write_public_elsewhere}
use kem_make.KeyDirectory.Index.{
  load_alt_index-same, alt_index_add_elsewhere, load_alt_index-alt_index_add,
}
use kem_make.KeyDirectory.Invariant.{Codecs, IsSound, load_verified-built, build_key_id-digest}
use kem_make.KeyDirectory.Reachable.{OwnEntry, load_referenced_own}
use kem_make.KeyDirectory.Steps.{with_id, put_public, cache_key_id_steps}
use kem_make.KeyDirectory.{
  KeyReference, by_id, find_digest, first_id, load_referenced, cache_key_id, key_id_for,
}

-- hashlib's digests are octets.
abbrev pub IsOctetHash : Hashing → Type 0
IsOctetHash h =
    (name : String) (text digest : Bytes)
    → h.digest name text ≡ some digest
    → All (λ c. c < 256) digest

decode_ascii-hex : (bs : Bytes) → All (λ c. c < 256) bs → decode_ascii (hex bs) ≡ ok (hex bs)
decode_ascii-hex bs octets = ground (arith, all-hex bs octets)

find_entry-added :
    (key_id : KeyId) (entry : AltIndexEntry) (index : List AltIndexEntry)
    → find_entry key_id index ≡ none
    → is_same_id entry.key_id key_id ≡ true
    → find_entry key_id (index ++ entry ∷ []) ≡ some entry
unfolding find_entry
find_entry-added key_id entry [] absent same = ground arith
find_entry-added key_id entry (e ∷ es) absent same =
    ground (arith, absent, same, find_entry-added key_id entry es)

pub has_id-added :
    (key_id : KeyId) (key_ids : List KeyId) → has_id key_id (key_ids ++ key_id ∷ []) ≡ true
unfolding has_id any
has_id-added key_id [] = ground arith
has_id-added key_id (kid ∷ kids) = ground (arith, has_id-added key_id kids)

pub find_digest-added :
    (kid : KeyId) (key_ids : List KeyId)
    → find_digest kid.hash_algorithm.algorithm key_ids ≡ none
    → find_digest kid.hash_algorithm.algorithm (key_ids ++ kid ∷ []) ≡ some kid
unfolding find_digest
find_digest-added kid [] absent = ground arith
find_digest-added kid (j ∷ js) absent = ground (arith, absent, find_digest-added kid js)

module _ (v : Vault) (codecs : Codecs v) where
  -- the entry that was written, and the id in the index that names it
  record Findable (kid : KeyId) (content : PublicKeyEntryData) (primary : KeyId) (w : KeyDirectory)
      : Type 0 where
    encoded : Bytes
    there : public_file (hex_of primary) w ≡ some encoded
    good : load_verified v w.master_key (hex_of primary) encoded ≡ ok (with_id content kid)
    elsewhere : public_file (hex_of kid) w ≡ none
    looked_up : alt_index_lookup v kid w ≡ ok (some (hex_of primary))

  Findable-loads :
      (kid : KeyId) (content : PublicKeyEntryData) (primary : KeyId) (w : KeyDirectory)
      → Findable kid content primary w
      → load_public_entry_by_key_id v kid w ≡ ok (with_id content kid)
  unfolding load_public_entry_by_key_id load_by_alt_index entry_with_id
  Findable-loads kid content primary w f =
      ground (arith, f.there, f.good, f.elsewhere, f.looked_up, has_id-added kid content.key_ids)

  cached_Findable :
      (draw second : Draw) (content : PublicKeyEntryData) (kid primary : KeyId) (k : KeyDirectory)
      (index : List AltIndexEntry)
      → is_some (public_file (hex_of primary) k) ≡ true
      → All (λ c. c < 256) primary.key_hash
      → load_alt_index v k ≡ ok index
      → find_entry kid index ≡ none
      → public_file (hex_of kid) k ≡ none
      → succeeded (put_public v draw primary (with_id content kid) k).0 ≡ true
      → let w = (put_public v draw primary (with_id content kid) k).1 in
        succeeded (alt_index_add v second kid (hex_of primary) w).0 ≡ true
        → Findable kid content primary (alt_index_add v second kid (hex_of primary) w).1
  unfolding alt_index_lookup
  cached_Findable draw second content kid primary k index here octets read unlisted absent done
        added =
      let encoded = v.records.public_entry.encode (
        build_stored_public_key_entry v k.master_key (with_id content kid) (hex_of primary)
          draw.salt) in
      let w = (put_public v draw primary (with_id content kid) k).1 in
      let entry : AltIndexEntry = record { key_id = kid; primary_hex = hex_of primary } in
      let (same, _, file) =
        write_public_elsewhere draw primary.key_hash encoded world_readable k [] in
      let put = public_file-write_public draw primary.key_hash encoded world_readable k in
      let after = alt_index_add_elsewhere v second kid (hex_of primary) w in
      let reads = load_alt_index-same v k w same file in
      record {
        encoded = encoded;
        there = ground (arith, put (hex_of primary), after (hex_of primary), done);
        good = ground (
          arith,
          after [],
          same,
          load_verified-built v codecs k.master_key (hex_of primary) draw.salt
              (with_id content kid),
        );
        elsewhere = ground (arith, put (hex_of kid), after (hex_of kid), absent, here);
        looked_up = ground (
          arith,
          load_alt_index-alt_index_add v codecs.alt_index second kid (hex_of primary) w index
              (reads ∙ read),
          added,
          find_entry-added kid entry index unlisted,
          decode_ascii-hex primary.key_hash octets,
        );
      }

  pub hashed_octets :
      IsOctetHash v.hashing
      → (public_key : KemPublicKey) (kid : KeyId) → primary_key_id v public_key ≡ ok kid
      → All (λ c. c < 256) kid.key_hash
  unfolding build_key_id
  hashed_octets octet public_key kid e =
      elim (Option-cases (v.hashing.digest "sha256" (v.asn1.kem_public_key.encode public_key))) [
        | inl refused ↦ absurd (ground arith)
        | inr (digest, hashed) ↦
            subst (All (λ c. c < 256)) (ground arith) (octet "sha256" _ digest hashed)
      ]

  cached_loads :
      IsOctetHash v.hashing
      → (draw second : Draw) (content : PublicKeyEntryData) (digest : String) (k : KeyDirectory)
        (kid : KeyId) (index : List AltIndexEntry)
      → OwnEntry v codecs k content
      → load_alt_index v k ≡ ok index
      → find_entry kid index ≡ none
      → public_file (hex_of kid) k ≡ none
      → (cache_key_id v draw second content digest k).0 ≡ ok kid
      → (load_public_entry_by_key_id v kid (cache_key_id v draw second content digest k).1
          ≡ ok (with_id content kid))
        × (build_key_id v.asn1 v.hashing content.public_key digest ≡ ok kid)
  unfolding first_id
  cached_loads octet draw second content digest k kid index entry read unlisted absent e =
      elim (cache_key_id_steps v draw second content digest k) [
        | inl (x, same) ↦ absurd (ground (arith, same, e))
        | inr c ↦
            let (is_new, done, added, state) = c.back kid e in
            let first : c.primary ≡ entry.own.primary = ground (arith, c.first, entry.own.listed) in
            let octets : All (λ c. c < 256) c.primary.key_hash =
              subst (λ j. All (λ c. c < 256) j.key_hash) (sym first)
                (hashed_octets octet content.public_key entry.own.primary entry.own.hashed) in
            let here : is_some (public_file (hex_of c.primary) k) ≡ true =
              ground (arith, first, entry.own.named, entry.there) in
            let found = Findable-loads kid content c.primary _ (
              cached_Findable draw second content kid c.primary k index here octets read unlisted
                absent
                (subst (λ j. succeeded (put_public v draw c.primary (with_id content j) k).0 ≡ true)
                  (sym is_new) done)
                (subst
                  (λ j.
                    succeeded
                      (alt_index_add v second j (hex_of c.primary)
                        (put_public v draw c.primary (with_id content j) k).1).0
                    ≡ true)
                  (sym is_new) added)) in
            (
              subst (λ w. load_public_entry_by_key_id v kid w ≡ ok (with_id content kid))
                  (sym (
                    state
                    ∙ ap
                        (λ j.
                          (alt_index_add v second j (hex_of c.primary)
                            (put_public v draw c.primary (with_id content j) k).1).1)
                        (sym is_new)))
                  found,
              ground (arith, c.made, is_new),
            )
      ]

  -- With the round trips of `Codecs` and digests that are octets, in a sound directory: an id that
  -- `key_id_for` returns for a digest that the key had no id of, and that no entry of the index and
  -- no public file had as its own, is found afterwards: `get_public_key` returns the key for it,
  -- and asked by this id for the same digest again, `key_id_for` returns it and writes nothing.
  pub key_id_for_findable :
      IsOctetHash v.hashing
      → (draw second later last : Draw) (reference : KeyReference) (digest : String)
        (k : KeyDirectory) (content : PublicKeyEntryData) (kid : KeyId) (index : List AltIndexEntry)
      → IsSound v k
      → load_referenced v reference k ≡ ok content
      → find_digest (digest_oid v digest) content.key_ids ≡ none
      → load_alt_index v k ≡ ok index
      → find_entry kid index ≡ none
      → public_file (hex_of kid) k ≡ none
      → (key_id_for v draw second reference digest k).0 ≡ ok kid
      → let w = (key_id_for v draw second reference digest k).1 in
        (get_public_key v kid w ≡ ok content.public_key)
        × (key_id_for v later last (by_id kid) digest w ≡ (ok kid, w))
  unfolding key_id_for get_public_key load_referenced first_id
  key_id_for_findable octet draw second later last reference digest k content kid index s loaded
        uncached read unlisted absent e =
      let entry = load_referenced_own v codecs reference k content s loaded in
      let cached : (cache_key_id v draw second content digest k).0 ≡ ok kid =
        ground (arith, e, loaded, uncached) in
      let state : (key_id_for v draw second reference digest k).1
          ≡ (cache_key_id v draw second content digest k).1 =
        ground (arith, loaded, uncached) in
      let (loads, made) =
        cached_loads octet draw second content digest k kid index entry read unlisted absent
          cached in
      let named = build_key_id-digest v codecs content.public_key digest kid made in
      (
        ground (arith, state, loads),
        ground (arith, state, loads, named, uncached, find_digest-added kid content.key_ids),
      )
