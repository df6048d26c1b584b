-- ===== src/KeyDirectory/Retrieval.antt =====
-- Keys that were added are there afterwards.
use kem_make.Base.{ℕ, Bytes, true, false, ◌≡◌, Option, none, some, arith, bytes_eq, inl, inr}
use kem_make.Base.Dict.{is_some, contains}
use kem_make.Errors.{ok, err, duplicate_key}
use kem_make.Wire.Messages.{KemPublicKey, KeyId}
use kem_make.KeyDirectory.Files.{
  smooth, temporary, atomic_write, write_under, owner_only, world_readable,
}
use kem_make.KeyDirectory.Derivation.{Vault, derive_kek}
use kem_make.KeyDirectory.State.{
  Folder, KeyDirectory, Draw, der_name, hex_of, write_file, public_file, private_file, write_public,
  write_private,
}
use kem_make.KeyDirectory.Entries.{primary_key_id, get_public_key, build_stored_public_key_entry}
use kem_make.KeyDirectory.Atomicity.{succeeded}
use kem_make.KeyDirectory.Writes.{write_private_elsewhere}
use kem_make.KeyDirectory.Invariant.{Codecs, IsWrappable, IsWrap, IsSound, build_key_id-digest}
use kem_make.KeyDirectory.Reachable.{add_public_key-IsSound, add_private_key-IsSound}
use kem_make.KeyDirectory.Views.{
  public_view, private_view, get_public_key_lem, get_private_key_lem, public_view_file,
  private_view_file,
}
use kem_make.KeyDirectory.Alternates.{IsOctetHash, hashed_octets}
use kem_make.KeyDirectory.Ledger.{public_view-put_public, private_view-put_private}
use kem_make.KeyDirectory.Steps.{fresh_content, sealed, add_public_key_steps, add_private_key_steps}
use kem_make.KeyDirectory.{
  PublicInput, as_wire_key, prepare_public_key, add_public_key, prepare_private_key,
  add_private_key, get_private_key,
}

-- A write that nothing stands in the way of.
pub record IsClear (draw : Draw) (folder : Option Folder) : Type 0 where
  pub files : Folder
  pub exists : folder ≡ some files
  pub faultless : draw.fault ≡ smooth
  pub free : contains (temporary draw.chars) files.files ≡ false

write_file-succeeds :
    (draw : Draw) (name content : Bytes) (mode : ℕ) (folder : Option Folder)
    → IsClear draw folder
    → succeeded (write_file draw name content mode folder).0 ≡ true
unfolding write_file atomic_write write_under
write_file-succeeds draw name content mode folder c = ground (arith, c.exists, c.faultless, c.free)

module _ (v : Vault) (codecs : Codecs v) where
  add_public_key_again :
      (draw : Draw) (input : PublicInput) (k : KeyDirectory) (public_key : KemPublicKey)
      (kid : KeyId)
      → as_wire_key input ≡ ok public_key
      → primary_key_id v public_key ≡ ok kid
      → is_some (public_file (hex_of kid) k) ≡ true
      → add_public_key v draw input k ≡ (err duplicate_key, k)
  unfolding add_public_key prepare_public_key
  add_public_key_again draw input k public_key kid wire hashed there =
      ground (arith, wire, hashed, there)

  add_private_key_again :
      (draw : Draw) (public_key : KemPublicKey) (bytes : Bytes) (k : KeyDirectory) (kid : KeyId)
      → primary_key_id v public_key ≡ ok kid
      → is_some (public_file (hex_of kid) k) ≡ true
      → is_some (private_file (hex_of kid) k) ≡ true
      → add_private_key v draw public_key bytes k ≡ (err duplicate_key, k)
  unfolding add_private_key prepare_private_key
  add_private_key_again draw public_key bytes k kid hashed beside there =
      ground (arith, hashed, beside, there)

  -- With the round trips of `Codecs`: a public key whose addition returned an id, in a sound
  -- directory, is what `get_public_key` returns for this id; and adding the same key again raises
  -- DuplicateKey and changes nothing.
  pub get_public_key-add_public_key :
      (draw again : Draw) (input : PublicInput) (k : KeyDirectory) (public_key : KemPublicKey)
      (kid : KeyId)
      → IsSound v k
      → as_wire_key input ≡ ok public_key
      → (add_public_key v draw input k).0 ≡ ok kid
      → let w = (add_public_key v draw input k).1 in
        (get_public_key v kid w ≡ ok public_key)
        × (add_public_key v again input w ≡ (err duplicate_key, w))
  get_public_key-add_public_key draw again input k public_key kid s wire e =
      elim (add_public_key_steps v draw input k) [
        | inl (x, same) ↦ absurd (ground (arith, same))
        | inr a ↦
            let w = (add_public_key v draw input k).1 in
            let same = a.returns kid e in
            let default = build_key_id-digest v codecs a.public_key "sha256" a.primary a.hashed in
            let view =
              public_view-put_public v codecs draw a.primary (fresh_content a.public_key a.primary)
                k (hex_of kid) in
            let reads =
              get_public_key_lem v codecs kid w (add_public_key-IsSound v codecs draw input k s)
                (ground (arith, same, default)) in
            let there : public_view v (hex_of kid) w ≡ some public_key =
              ground (arith, view, a.state, a.agrees, same, a.wire, wire, e) in
            (
              ground (arith, reads, there),
              add_public_key_again again input w public_key kid wire
                  (ground (arith, same, a.wire, wire, a.hashed))
                  (public_view_file v (hex_of kid) w public_key there),
            )
      ]

  -- With the round trips of `Codecs`, digests that are octets and a key wrap that unwraps what it
  -- wrapped, for 1 to 2^32 - 1 octets: private key bytes of such a length whose addition returned
  -- an id, in a sound directory, are what `get_private_key` returns for this id; and adding other
  -- bytes for the same public key raises DuplicateKey and changes nothing.
  pub get_private_key-add_private_key :
      IsOctetHash v.hashing
      → IsWrap v
      → (draw again : Draw) (public_key : KemPublicKey) (bytes others : Bytes) (k : KeyDirectory)
        (kid : KeyId)
      → IsSound v k
      → IsWrappable bytes
      → (add_private_key v draw public_key bytes k).0 ≡ ok kid
      → let w = (add_private_key v draw public_key bytes k).1 in
        (get_private_key v kid w ≡ ok bytes)
        × (add_private_key v again public_key others w ≡ (err duplicate_key, w))
  get_private_key-add_private_key octet unwraps draw again public_key bytes others k kid s wrappable
        e =
      elim (add_private_key_steps v draw public_key bytes k) [
        | inl (x, same) ↦ absurd (ground (arith, same))
        | inr a ↦
            let w = (add_private_key v draw public_key bytes k).1 in
            let same = a.returns kid e in
            let stored = sealed draw a.primary a.wrapped in
            let hashed : primary_key_id v public_key ≡ ok kid = ground (arith, same, a.hashed) in
            let default = build_key_id-digest v codecs public_key "sha256" kid hashed in
            let view =
              private_view-put_private v codecs draw stored bytes k (hex_of kid)
                (unwraps _ bytes a.wrapped wrappable a.wraps) in
            let reads =
              get_private_key_lem v codecs kid w
                (add_private_key-IsSound v codecs draw public_key bytes k s)
                (hashed_octets v codecs octet public_key kid hashed) default in
            let there : private_view v (hex_of kid) w ≡ some (ok bytes) =
              ground (arith, view, a.state, a.agrees, same, e) in
            let elsewhere =
              write_private_elsewhere draw a.primary.key_hash
                (v.records.private_entry.encode stored) owner_only k (hex_of kid) in
            (
              ground (arith, reads, there),
              add_private_key_again again public_key others w kid hashed
                  (ground (arith, elsewhere, a.state, same, a.beside))
                  (private_view_file v (hex_of kid) w (ok bytes) there),
            )
      ]

  -- `add_public_key` of a key whose hash names no file yet, with nothing in the way of the write,
  -- returns the SHA-256 id of the key.
  pub add_public_key_completes :
      (draw : Draw) (input : PublicInput) (k : KeyDirectory) (public_key : KemPublicKey)
      (kid : KeyId)
      → as_wire_key input ≡ ok public_key
      → primary_key_id v public_key ≡ ok kid
      → public_file (hex_of kid) k ≡ none
      → IsClear draw k.disk.public_folder
      → (add_public_key v draw input k).0 ≡ ok kid
  unfolding add_public_key prepare_public_key write_public
  add_public_key_completes draw input k public_key kid wire hashed absent clear = ground (
    arith,
    wire,
    hashed,
    absent,
    write_file-succeeds draw (der_name (hex_of kid))
        (v.records.public_entry.encode (
          build_stored_public_key_entry v k.master_key (fresh_content public_key kid) (hex_of kid)
            draw.salt))
        world_readable k.disk.public_folder clear,
  )

  pub add_private_key_completes :
      (draw : Draw) (public_key : KemPublicKey) (bytes wrapped : Bytes) (k : KeyDirectory)
      (kid : KeyId)
      → primary_key_id v public_key ≡ ok kid
      → is_some (public_file (hex_of kid) k) ≡ true
      → private_file (hex_of kid) k ≡ none
      → v.wrap (derive_kek v k.master_key draw.salt (v.asn1.dump_key_id kid)) bytes ≡ some wrapped
      → IsClear draw k.disk.private_folder
      → (add_private_key v draw public_key bytes k).0 ≡ ok kid
  unfolding add_private_key prepare_private_key write_private
  add_private_key_completes draw public_key bytes wrapped k kid hashed beside absent wraps clear =
      ground (
        arith,
        hashed,
        beside,
        absent,
        wraps,
        write_file-succeeds draw (der_name (hex_of kid))
            (v.records.private_entry.encode (sealed draw kid wrapped)) owner_only
            k.disk.private_folder clear,
      )
