-- ===== src/Integration.antt =====
-- src/kem_make/session.py over src/kem_make/keystore.py: two sessions whose `KeyLookup` is a
-- `KeyDirectory` each.
pub mod Provisions
mod Tests
use kem_make.Base.{
  ℕ, ◌<◌, String, Bytes, true, ◌≡◌, ◌∙◌, refl, sym, ap, subst, Option, none, some, List, arith, inl,
  inr, length,
}
use kem_make.Errors.{Result, Result-cases, ok, err, or_raise, key_not_found}
use kem_make.Wire.Algorithms.{mlkem_oid, aead_oid}
use kem_make.Wire.Messages.{KemPublicKey, KeyId}
use kem_make.Wire.{RoundTrips, build_aead_list}
use kem_make.Session.Backend.{Env, KeyLookup, Coins}
use kem_make.Session.State.{SessionConfig}
use kem_make.Session.Answers.{choose_aead, is_in}
use kem_make.Session.Laws.{Laws, public_of}
use kem_make.Session.Handshake.Meeting.{Meeting, Run, Fits}
use kem_make.Session.Handshake.Agreement.{Agrees, handshake-Agrees}
use kem_make.KeyDirectory.Derivation.{Vault, digest_oid}
use kem_make.KeyDirectory.State.{KeyDirectory, Draw, hex_of}
use kem_make.KeyDirectory.Entries.{primary_key_id, get_public_key}
use kem_make.KeyDirectory.Invariant.{Codecs, IsWrappable, IsWrap, IsSound, build_key_id-digest}
use kem_make.KeyDirectory.Reachable.{add_public_key-IsSound, add_private_key-IsSound}
use kem_make.KeyDirectory.Views.{private_view, get_private_key_lem}
use kem_make.KeyDirectory.Alternates.{IsOctetHash, hashed_octets}
use kem_make.KeyDirectory.Lifecycle.{Reaches, Reaches-IsSound}
use kem_make.KeyDirectory.Steps.{
  AddsPublic, AddsPrivate, add_public_key_steps, add_private_key_steps,
}
use kem_make.KeyDirectory.Retrieval.{get_public_key-add_public_key, get_private_key-add_private_key}
use kem_make.KeyDirectory.Pairs.{get_private_key-add_public_key}
use kem_make.KeyDirectory.{
  PublicInput, wire_key, as_wire_key, add_public_key, add_private_key, get_private_key,
}
use Provisions.{
  returned, lookup_of, Provision, peer_found, own_found, own_id_hashed, peer_id_hashed,
}

-- What two parties agree on, and the directories that they filled, each with the other's public
-- key.
pub record Setting : Type 0 where
  pub vault : Vault
  pub codecs : Codecs vault
  pub unwraps : IsWrap vault
  pub octet : IsOctetHash vault.hashing
  pub env : Env
  pub level : ℕ
  pub oid : String
  pub known : mlkem_oid level ≡ some oid
  pub laws : Laws env.backend level
  pub codec : RoundTrips env.asn1.make_message
  pub alice_seed : Bytes
  pub bob_seed : Bytes
  pub alice_wrappable : IsWrappable alice_seed
  pub bob_wrappable : IsWrappable bob_seed
  pub alice :
      Provision vault
        (public_of env.backend level laws oid known alice_seed)
        (public_of env.backend level laws oid known bob_seed)
        alice_seed
  pub bob :
      Provision vault
        (public_of env.backend level laws oid known bob_seed)
        (public_of env.backend level laws oid known alice_seed)
        bob_seed
  pub config_a : SessionConfig
  pub config_b : SessionConfig
  pub level_a : config_a.kem_level ≡ level
  pub level_b : config_b.kem_level ≡ level
  pub waits_a : 0 < config_a.retry_interval_seconds
  pub waits_b : 0 < config_b.ttl_seconds
  pub requested : List String
  pub advertised : build_aead_list env.asn1 config_a.acceptable_aeads ≡ ok requested
  pub chosen : String
  pub agreed : choose_aead config_b.acceptable_aeads requested ≡ ok (some chosen)
  pub accepted : is_in chosen config_a.acceptable_aeads ≡ true

module _ (s : Setting) where
  abbrev public_a : KemPublicKey
  public_a = public_of s.env.backend s.level s.laws s.oid s.known s.alice_seed

  abbrev public_b : KemPublicKey
  public_b = public_of s.env.backend s.level s.laws s.oid s.known s.bob_seed

  -- each party knows the other by the id that the other has for itself
  pub bob_found : get_public_key s.vault s.bob.own_id s.alice.filled ≡ ok public_b
  bob_found =
      let found = peer_found s.vault s.codecs s.octet public_a public_b s.alice_seed s.alice in
      let mine = own_id_hashed s.vault s.codecs s.octet public_b public_a s.bob_seed s.bob in
      let theirs = peer_id_hashed s.vault s.codecs s.octet public_a public_b s.alice_seed s.alice in
      ground (arith, found, mine, theirs)

  pub alice_found : get_public_key s.vault s.alice.own_id s.bob.filled ≡ ok public_a
  alice_found =
      let found = peer_found s.vault s.codecs s.octet public_b public_a s.bob_seed s.bob in
      let mine = own_id_hashed s.vault s.codecs s.octet public_a public_b s.alice_seed s.alice in
      let theirs = peer_id_hashed s.vault s.codecs s.octet public_b public_a s.bob_seed s.bob in
      ground (arith, found, mine, theirs)

  -- the meeting of two sessions over these directories
  unfoldable pub meeting_of : Meeting
  unfolding lookup_of
  meeting_of = record {
    env = s.env;
    level = s.level;
    oid = s.oid;
    known = s.known;
    laws = s.laws;
    codec = s.codec;
    alice_keys = lookup_of s.vault s.alice.filled;
    bob_keys = lookup_of s.vault s.bob.filled;
    alice_id = s.alice.own_id;
    bob_id = s.bob.own_id;
    alice_seed = s.alice_seed;
    bob_seed = s.bob_seed;
    bob_public = ap returned bob_found;
    alice_private = ap returned (
        own_found s.vault s.codecs s.octet public_a public_b s.alice_seed s.alice s.unwraps
          s.alice_wrappable);
    bob_private = ap returned (
        own_found s.vault s.codecs s.octet public_b public_a s.bob_seed s.bob s.unwraps
          s.bob_wrappable);
    alice_public = ap returned alice_found;
    config_a = s.config_a;
    config_b = s.config_b;
    level_a = s.level_a;
    level_b = s.level_b;
    waits_a = s.waits_a;
    waits_b = s.waits_b;
    requested = s.requested;
    advertised = s.advertised;
    chosen = s.chosen;
    agreed = s.agreed;
    accepted = s.accepted;
  }

-- One handshake of the two, as in `Run`.
pub record Occasion (s : Setting) : Type 0 where
  pub coins_a : Coins
  pub coins_b : Coins
  pub coins_c : Coins
  pub coins_d : Coins
  pub coins_e : Coins
  pub now_a : ℕ
  pub now_b : ℕ
  pub now_c : ℕ
  pub now_d : ℕ
  pub now_e : ℕ
  pub pa : Option Bytes
  pub pb : Option Bytes
  pub fits_a : Fits pa
  pub fits_b : Fits pb
  pub sized : length coins_a.uuid ≡ 16
  pub aead : String
  pub named : aead_oid s.chosen ≡ some aead

unfoldable pub run_of : (s : Setting) → Occasion s → Run
unfolding meeting_of
run_of s o = record {
  meeting = meeting_of s;
  coins_a = o.coins_a;
  coins_b = o.coins_b;
  coins_c = o.coins_c;
  coins_d = o.coins_d;
  coins_e = o.coins_e;
  now_a = o.now_a;
  now_b = o.now_b;
  now_c = o.now_c;
  now_d = o.now_d;
  now_e = o.now_e;
  pa = o.pa;
  pb = o.pb;
  fits_a = o.fits_a;
  fits_b = o.fits_b;
  sized = o.sized;
  aead = o.aead;
  named = o.named;
}

-- With the round trips of `Codecs`, digests that are octets, a key wrap that unwraps what it
-- wrapped and private keys of 1 to 2^32 - 1 octets, over cryptography that keeps its laws: two
-- parties that each made a key directory with `create` and any calls or crashes, then added their
-- own public key, their private key and the peer's public key with calls that returned, and that
-- agree on a KEM level and share an AEAD algorithm: sessions with these directories as their key
-- stores complete the handshake, and end as `Agrees` states, with the same keys and with each
-- other's payloads.
pub directories-Agrees : (s : Setting) (o : Occasion s) → Agrees (run_of s o)
directories-Agrees s o = handshake-Agrees (run_of s o)
