-- ===== src/Session/Handshake/Meeting.antt =====
-- Who meets whom in a handshake, and on what terms.
use kem_make.Base.{ℕ, ◌≤◌, ◌<◌, String, Bytes, true, ◌≡◌, Option, none, some, List, length}
use kem_make.Errors.{ok}
use kem_make.Wire.Algorithms.{mlkem_oid, aead_oid}
use kem_make.Wire.Messages.{KeyId}
use kem_make.Wire.{RoundTrips, build_aead_list}
use kem_make.Session.Backend.{Env, KeyLookup, Coins}
use kem_make.Session.State.{SessionConfig}
use kem_make.Session.Answers.{choose_aead, is_in}
use kem_make.Session.Laws.{max_text, Laws, public_of}

-- Two parties that know each other's static keys, use one KEM level, and share an AEAD algorithm;
-- and the cryptography and the encoding that they stand on.
pub record Meeting : Type 0 where
  pub env : Env
  pub level : ℕ
  pub oid : String
  pub known : mlkem_oid level ≡ some oid
  pub laws : Laws env.backend level
  pub codec : RoundTrips env.asn1.make_message
  pub alice_keys : KeyLookup
  pub bob_keys : KeyLookup
  pub alice_id : KeyId
  pub bob_id : KeyId
  pub alice_seed : Bytes
  pub bob_seed : Bytes
  pub bob_public :
      alice_keys.get_public_key bob_id ≡ some (public_of env.backend level laws oid known bob_seed)
  pub alice_private : alice_keys.get_private_key alice_id ≡ some alice_seed
  pub bob_private : bob_keys.get_private_key bob_id ≡ some bob_seed
  pub alice_public :
      bob_keys.get_public_key alice_id
      ≡ some (public_of env.backend level laws oid known alice_seed)
  pub config_a : SessionConfig
  pub config_b : SessionConfig
  pub level_a : config_a.kem_level ≡ level
  pub level_b : config_b.kem_level ≡ level
  pub waits_a : 0 < config_a.retry_interval_seconds
  pub waits_b : 0 < config_b.ttl_seconds
  pub requested : List String
  pub advertised : build_aead_list env.asn1 config_a.acceptable_aeads ≡ ok requested
  pub chosen : String
  pub agreed : choose_aead config_b.acceptable_aeads requested ≡ ok (some chosen)
  pub accepted : is_in chosen config_a.acceptable_aeads ≡ true

-- A payload that waits fits in one text.
abbrev pub Fits : Option Bytes → Type 0
Fits none = Unit
Fits (some payload) = length payload ≤ max_text

-- One handshake of the two: the randomness and the time of each call, what each application has
-- queued, and the OID of the algorithm that they share.
pub record Run : Type 0 where
  pub meeting : Meeting
  pub open meeting use *
  pub coins_a : Coins
  pub coins_b : Coins
  pub coins_c : Coins
  pub coins_d : Coins
  pub coins_e : Coins
  pub now_a : ℕ
  pub now_b : ℕ
  pub now_c : ℕ
  pub now_d : ℕ
  pub now_e : ℕ
  pub pa : Option Bytes
  pub pb : Option Bytes
  pub fits_a : Fits pa
  pub fits_b : Fits pb
  pub sized : length coins_a.uuid ≡ 16
  pub aead : String
  pub named : aead_oid meeting.chosen ≡ some aead
