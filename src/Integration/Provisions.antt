-- ===== src/Integration/Provisions.antt =====
-- A key directory as a session's `KeyLookup`, and one that a party has filled for a handshake.
use kem_make.Base.{Bytes, ◌≡◌, refl, ap, subst, Option, none, some, arith, inl, inr}
use kem_make.Errors.{Result, ok, err}
use kem_make.Wire.Messages.{KemPublicKey, KeyId}
use kem_make.Session.Backend.{KeyLookup}
use kem_make.KeyDirectory.Derivation.{Vault}
use kem_make.KeyDirectory.State.{KeyDirectory, Draw}
use kem_make.KeyDirectory.Entries.{primary_key_id, get_public_key}
use kem_make.KeyDirectory.Invariant.{Codecs, IsWrappable, IsWrap, IsSound, build_key_id-digest}
use kem_make.KeyDirectory.Reachable.{add_public_key-IsSound, add_private_key-IsSound}
use kem_make.KeyDirectory.Alternates.{IsOctetHash, hashed_octets}
use kem_make.KeyDirectory.Lifecycle.{Reaches, Reaches-IsSound}
use kem_make.KeyDirectory.Steps.{add_public_key_steps}
use kem_make.KeyDirectory.Retrieval.{get_public_key-add_public_key, get_private_key-add_private_key}
use kem_make.KeyDirectory.Pairs.{get_private_key-add_public_key}
use kem_make.KeyDirectory.{wire_key, as_wire_key, add_public_key, add_private_key, get_private_key}

-- what a session sees of a call that may raise
abbrev pub returned : {A : Type 0} → Result A → Option A
returned (ok a) = some a
returned (err e) = none

unfoldable pub lookup_of : Vault → KeyDirectory → KeyLookup
lookup_of v k = record {
  get_public_key = λ id. returned (get_public_key v id k);
  get_private_key = λ id. returned (get_private_key v id k);
}

-- A directory that a party has filled: its own public key, then its private key, then the peer's
-- public key, where each call returned.
pub record Provision (v : Vault) (own peer : KemPublicKey) (seed : Bytes) : Type 0 where
  pub passphrase : Bytes
  pub start : KeyDirectory
  pub reached : Reaches v passphrase start
  pub first : Draw
  pub second : Draw
  pub third : Draw
  pub own_id : KeyId
  pub peer_id : KeyId
  pub with_own : KeyDirectory
  pub with_private : KeyDirectory
  pub filled : KeyDirectory
  pub own_added : add_public_key v first (wire_key own) start ≡ (ok own_id, with_own)
  pub private_added : add_private_key v second own seed with_own ≡ (ok own_id, with_private)
  pub peer_added : add_public_key v third (wire_key peer) with_private ≡ (ok peer_id, filled)

module _ (v : Vault) (codecs : Codecs v) (octet : IsOctetHash v.hashing) where
  -- the id of an added key
  added_id :
      (draw : Draw) (public_key : KemPublicKey) (k : KeyDirectory) (kid : KeyId)
      → (add_public_key v draw (wire_key public_key) k).0 ≡ ok kid
      → primary_key_id v public_key ≡ ok kid
  unfolding as_wire_key
  added_id draw public_key k kid e = elim (add_public_key_steps v draw (wire_key public_key) k) [
    | inl (x, same) ↦ absurd (ground (arith, same))
    | inr a ↦ ground (arith, a.wire, a.hashed, a.returns kid e)
  ]

  module _ (own peer : KemPublicKey) (seed : Bytes) (p : Provision v own peer seed) where
    with_own-IsSound : IsSound v p.with_own
    with_own-IsSound = subst (IsSound v) (ap (λ r. r.1) p.own_added) (
        add_public_key-IsSound v codecs p.first (wire_key own) p.start
          (Reaches-IsSound v codecs p.passphrase p.start p.reached))

    with_private-IsSound : IsSound v p.with_private
    with_private-IsSound =
        subst (IsSound v) (ap (λ r. r.1) p.private_added)
          (add_private_key-IsSound v codecs p.second own seed p.with_own with_own-IsSound)

    filled-IsSound : IsSound v p.filled
    filled-IsSound = subst (IsSound v) (ap (λ r. r.1) p.peer_added) (
        add_public_key-IsSound v codecs p.third (wire_key peer) p.with_private with_private-IsSound)

    pub peer_found : get_public_key v p.peer_id p.filled ≡ ok peer
    unfolding as_wire_key
    peer_found =
        let (found, _) =
          get_public_key-add_public_key v codecs p.third p.third (wire_key peer) p.with_private peer
            p.peer_id with_private-IsSound refl (ap (λ r. r.0) p.peer_added) in
        subst (λ k. get_public_key v p.peer_id k ≡ ok peer) (ap (λ r. r.1) p.peer_added) found

    pub own_id_hashed : primary_key_id v own ≡ ok p.own_id
    own_id_hashed = added_id p.first own p.start p.own_id (ap (λ r. r.0) p.own_added)

    pub peer_id_hashed : primary_key_id v peer ≡ ok p.peer_id
    peer_id_hashed = added_id p.third peer p.with_private p.peer_id (ap (λ r. r.0) p.peer_added)

    pub own_found : IsWrap v → IsWrappable seed → get_private_key v p.own_id p.filled ≡ ok seed
    own_found unwraps wrappable =
        let default = build_key_id-digest v codecs own "sha256" p.own_id own_id_hashed in
        let octets = hashed_octets v codecs octet own p.own_id own_id_hashed in
        let (found, _) =
          get_private_key-add_private_key v codecs octet unwraps p.second p.second own seed seed
            p.with_own p.own_id with_own-IsSound wrappable (ap (λ r. r.0) p.private_added) in
        subst (λ k. get_private_key v p.own_id k ≡ ok seed) (ap (λ r. r.1) p.peer_added)
          (get_private_key-add_public_key v codecs p.third (wire_key peer) p.with_private p.own_id
            seed with_private-IsSound octets default
            (subst (λ k. get_private_key v p.own_id k ≡ ok seed) (ap (λ r. r.1) p.private_added)
              found))
