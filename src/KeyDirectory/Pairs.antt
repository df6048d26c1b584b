-- ===== src/KeyDirectory/Pairs.antt =====
-- A whole key pair, stored and fetched.
use kem_make.Base.{
  Option, ℕ, ap, ◌≢◌, true, bytes_eq, All, ◌<◌, Bytes, ◌≡◌, sym, subst, none, some, arith, inl, inr,
}
use kem_make.Errors.{ok}
use kem_make.Wire.Messages.{KemPublicKey, KeyId}
use kem_make.KeyDirectory.Files.{unlinks, temporary, atomic_write, world_readable}
use kem_make.KeyDirectory.Atomicity.{atomic_write_exact, temporary-ne-name}
use kem_make.KeyDirectory.Derivation.{Vault, derive_kek, digest_oid}
use kem_make.KeyDirectory.State.{
  Folder, KeyDirectory, Draw, hex_of, der_name, write_file, public_file, private_file, write_public,
  write_private,
}
use kem_make.KeyDirectory.Entries.{primary_key_id, get_public_key, build_stored_public_key_entry}
use kem_make.KeyDirectory.Writes.{public_file-write_public}
use kem_make.KeyDirectory.Invariant.{Codecs, IsWrappable, IsWrap, IsSound, build_key_id-digest}
use kem_make.KeyDirectory.Reachable.{add_public_key-IsSound, add_private_key-IsSound}
use kem_make.KeyDirectory.Views.{
  private_view, get_private_key_lem, public_view, get_public_key_lem, public_view_file,
}
use kem_make.KeyDirectory.Alternates.{IsOctetHash}
use kem_make.KeyDirectory.Ledger.{public_view-put_private, private_view-put_public}
use kem_make.KeyDirectory.Steps.{fresh_content, sealed, add_public_key_steps, add_private_key_steps}
use kem_make.KeyDirectory.Retrieval.{
  IsClear, get_public_key-add_public_key, get_private_key-add_private_key, add_public_key_completes,
  add_private_key_completes,
}
use kem_make.KeyDirectory.{
  PublicInput, as_wire_key, add_public_key, add_private_key, get_private_key,
}

-- After a write of another name, nothing stands in the way either.
write_file-IsClear :
    (draw other : Draw) (name content : Bytes) (mode : ℕ) (folder : Option Folder)
    → IsClear draw folder
    → temporary draw.chars ≢ name
    → temporary other.chars ≢ name
    → unlinks other.fault ≡ true
    → IsClear draw (write_file other name content mode folder).1
unfolding write_file
write_file-IsClear draw other name content mode folder c apart staged removed =
    let files = (atomic_write other.fault other.chars name content mode c.files.files).1 in
    let same =
      atomic_write_exact other.fault other.chars name content mode c.files.files
        (temporary draw.chars) staged (inr removed) in
    record {
      files = record (c.files) { files = files };
      exists = ground (arith, c.exists);
      faultless = c.faultless;
      free = ground (arith, same, c.free, apart);
    }

module _ (v : Vault) (codecs : Codecs v) where
  pub add_public_key-IsClear :
      (draw other : Draw) (input : PublicInput) (k : KeyDirectory)
      → IsClear draw k.disk.public_folder
      → unlinks other.fault ≡ true
      → IsClear draw (add_public_key v other input k).1.disk.public_folder
  unfolding write_public
  add_public_key-IsClear draw other input k c removed =
      elim (add_public_key_steps v other input k) [
        | inl (x, same) ↦
            subst (λ w. IsClear draw w.disk.public_folder) (sym (ap (λ r. r.1) same)) c
        | inr a ↦
            subst (λ w. IsClear draw w.disk.public_folder) (sym a.state)
              (write_file-IsClear draw other (der_name (hex_of a.primary)) _ world_readable
                k.disk.public_folder c (temporary-ne-name draw.chars (hex_of a.primary))
                (temporary-ne-name other.chars (hex_of a.primary)) removed)
      ]

  -- files of other names stay
  pub add_public_key_others :
      (draw : Draw) (input : PublicInput) (public_key : KemPublicKey) (kid : KeyId)
      (k : KeyDirectory) (h : Bytes)
      → as_wire_key input ≡ ok public_key
      → primary_key_id v public_key ≡ ok kid
      → hex_of kid ≢ h
      → public_file h (add_public_key v draw input k).1 ≡ public_file h k
  add_public_key_others draw input public_key kid k h wire hashed apart =
      elim (add_public_key_steps v draw input k) [
        | inl (x, same) ↦ ground (arith, same)
        | inr a ↦
            let encoded = v.records.public_entry.encode (
              build_stored_public_key_entry v k.master_key (fresh_content a.public_key a.primary)
                (hex_of a.primary) draw.salt) in
            let same : a.primary ≡ kid = ground (arith, a.wire, wire, a.hashed, hashed) in
            ground (
              arith,
              a.state,
              same,
              apart,
              public_file-write_public draw a.primary.key_hash encoded world_readable k h,
            )
      ]

  pub add_private_key_elsewhere :
      (draw : Draw) (public_key : KemPublicKey) (bytes : Bytes) (k : KeyDirectory)
      → (add_private_key v draw public_key bytes k).1.disk.public_folder ≡ k.disk.public_folder
  unfolding write_private
  add_private_key_elsewhere draw public_key bytes k =
      elim (add_private_key_steps v draw public_key bytes k) [
        | inl (x, same) ↦ ground (arith, same)
        | inr a ↦ ground (arith, a.state)
      ]

  -- the private keys stay when a public key is added, the public ones when a private key is
  pub add_public_key_elsewhere :
      (draw : Draw) (input : PublicInput) (k : KeyDirectory)
      → let w = (add_public_key v draw input k).1 in
        (w.master_key ≡ k.master_key) × (w.disk.private_folder ≡ k.disk.private_folder)
  unfolding write_public
  add_public_key_elsewhere draw input k = elim (add_public_key_steps v draw input k) [
    | inl (x, same) ↦ ground (arith, same)
    | inr a ↦ ground (arith, a.state)
  ]

  public_view-add_private_key :
      (draw : Draw) (public_key : KemPublicKey) (bytes : Bytes) (k : KeyDirectory) (h : Bytes)
      → public_view v h (add_private_key v draw public_key bytes k).1 ≡ public_view v h k
  public_view-add_private_key draw public_key bytes k h =
      elim (add_private_key_steps v draw public_key bytes k) [
        | inl (x, same) ↦ ground (arith, same)
        | inr a ↦
            ground
              (arith, a.state, public_view-put_private v draw (sealed draw a.primary a.wrapped) k h)
      ]

  pub private_view-add_public_key :
      (draw : Draw) (input : PublicInput) (k : KeyDirectory) (h : Bytes)
      → private_view v h (add_public_key v draw input k).1 ≡ private_view v h k
  private_view-add_public_key draw input k h = elim (add_public_key_steps v draw input k) [
    | inl (x, same) ↦ ground (arith, same)
    | inr a ↦ ground (
      arith,
      a.state,
      private_view-put_public v draw a.primary (fresh_content a.public_key a.primary) k h,
    )
  ]

  -- so a private key that was there still is
  pub get_private_key-add_public_key :
      (draw : Draw) (input : PublicInput) (k : KeyDirectory) (kid : KeyId) (bytes : Bytes)
      → IsSound v k
      → All (λ c. c < 256) kid.key_hash
      → kid.hash_algorithm.algorithm ≡ digest_oid v "sha256"
      → get_private_key v kid k ≡ ok bytes
      → get_private_key v kid (add_public_key v draw input k).1 ≡ ok bytes
  get_private_key-add_public_key draw input k kid bytes s octets default e = ground (
    arith,
    get_private_key_lem v codecs kid k s octets default,
    get_private_key_lem v codecs kid (add_public_key v draw input k).1
        (add_public_key-IsSound v codecs draw input k s) octets default,
    private_view-add_public_key draw input k (hex_of kid),
  )

  view_of_returned :
      (kid : KeyId) (k : KeyDirectory) (public_key : KemPublicKey)
      → IsSound v k
      → kid.hash_algorithm.algorithm ≡ digest_oid v "sha256"
      → get_public_key v kid k ≡ ok public_key
      → public_view v (hex_of kid) k ≡ some public_key
  view_of_returned kid k public_key s default e =
      ground (arith, get_public_key_lem v codecs kid k s default)

  -- With the round trips of `Codecs`, digests that are octets and a key wrap that unwraps what it
  -- wrapped, for 1 to 2^32 - 1 octets: in a sound directory without files under the hash of a
  -- public key, with private key bytes of such a length and with nothing in the way of the two
  -- writes: adding the public key and then its private key returns the SHA-256 id both times, and
  -- afterwards both are what is returned for this id.
  pub keypair_stored :
      IsOctetHash v.hashing
      → IsWrap v
      → (draw second : Draw) (input : PublicInput) (public_key : KemPublicKey) (kid : KeyId)
        (bytes wrapped : Bytes) (k : KeyDirectory)
      → IsSound v k
      → IsWrappable bytes
      → as_wire_key input ≡ ok public_key
      → primary_key_id v public_key ≡ ok kid
      → public_file (hex_of kid) k ≡ none
      → private_file (hex_of kid) k ≡ none
      → IsClear draw k.disk.public_folder
      → IsClear second k.disk.private_folder
      → v.wrap (derive_kek v k.master_key second.salt (v.asn1.dump_key_id kid)) bytes ≡ some wrapped
      → let (q, w) = add_public_key v draw input k in
        let (r, u) = add_private_key v second public_key bytes w in
        (q ≡ ok kid)
        × (r ≡ ok kid)
        × (get_public_key v kid u ≡ ok public_key)
        × (get_private_key v kid u ≡ ok bytes)
  keypair_stored octet unwraps draw second input public_key kid bytes wrapped k s wrappable wire
        hashed no_public no_private clear clear_too wraps =
      let w = (add_public_key v draw input k).1 in
      let u = (add_private_key v second public_key bytes w).1 in
      let sw = add_public_key-IsSound v codecs draw input k s in
      let su = add_private_key-IsSound v codecs second public_key bytes w sw in
      let default = build_key_id-digest v codecs public_key "sha256" kid hashed in
      let first =
        add_public_key_completes v codecs draw input k public_key kid wire hashed no_public clear in
      let (there, _) =
        get_public_key-add_public_key v codecs draw draw input k public_key kid s wire first in
      let seen = view_of_returned kid w public_key sw default there in
      let (key, folder) = add_public_key_elsewhere draw input k in
      let then_private =
        add_private_key_completes v codecs second public_key bytes wrapped w kid hashed
          (public_view_file v (hex_of kid) w public_key seen) (ground (arith, folder, no_private))
          (ground (arith, key, wraps)) (subst (IsClear second) (sym folder) clear_too) in
      let (fetched, _) =
        get_private_key-add_private_key v codecs octet unwraps second second public_key bytes bytes
          w kid sw wrappable then_private in
      (
        first,
        then_private,
        ground (
          arith,
          get_public_key_lem v codecs kid u su default,
          public_view-add_private_key second public_key bytes w (hex_of kid),
          seen,
        ),
        fetched,
      )
