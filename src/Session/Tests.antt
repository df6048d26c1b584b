-- ===== src/Session/Tests.antt =====
-- The session layer over the sample packages.
mod Numbering
mod Sending
use kem_make.Errors.{ok, err, handshake_failed}
use kem_make.Session.Traffic.{InStep, sent_by, pdu_of, got_by, payload_delivered}
use kem_make.Session.Handlers.{send_established_payload}
use kem_make.Wire.Messages.{MakePayload, session_completion_response}
use kem_make.Session.Handshake.Opening.{wire}
use kem_make.Session.Backend.{SessionKeys}
use kem_make.Session.State.{responder, established}
use kem_make.Samples.Backend.{repeat, length-repeat}
use kem_make.Base.{
  ℕ, Bytes, String, ◌≡◌, refl, none, some, List, [], ◌∷◌, arith, bytes_eq, nat_discrete,
  string_discrete, any, all, replicate, inl, ◌+◌, ◌≤◌, ◌++◌,
}
use kem_make.Wire.{build_aead_list}
use kem_make.Wire.Algorithms.{mlkem_oid, aead_oid}
use kem_make.Wire.Messages.{KeyId}
use kem_make.Session.Backend.{KeyLookup, Coins}
use kem_make.Session.State.{
  default_config, Session, new_session, initiator, expect_session_init_response, dropped,
}
use kem_make.Session.Outcomes.{Outcome, process_incoming-Outcome}
use kem_make.Session.Retries.{IsWaiting, idle, idle_gives_up, idle_resends}
use kem_make.Session.{process_incoming}
use kem_make.Session.Answers.{choose_aead}
use kem_make.Session.Laws.{public_of}
use kem_make.Session.Handshake.Meeting.{Meeting, Run}
use kem_make.Session.Handshake.Opening.{bob_fresh, request_pdu}
use kem_make.Session.Handshake.Agreement.{Agrees, handshake-Agrees}
use kem_make.Samples.Messages.{sample_asn1, sample-RoundTrips}
use kem_make.Samples.Backend.{sample_backend, sample-Laws, sample_env}

abbrev pub id_of : ℕ → KeyId
id_of n = record {
  hash_algorithm = record { algorithm = "2.16.840.1.101.3.4.2.1"; parameters = none };
  key_hash = n ∷ [];
}

pub level_known : mlkem_oid 768 ≡ some "2.16.840.1.101.3.4.4.2"
unfolding mlkem_oid nat_discrete
level_known = refl

-- A store that holds one private key and one public key.
abbrev pub keys_of : Bytes → Bytes → KeyLookup
keys_of own peer = record {
  get_public_key = λ id.
      some (public_of sample_backend 768 sample-Laws "2.16.840.1.101.3.4.4.2" level_known peer);
  get_private_key = λ id. some own;
}

abbrev oids : List String
oids = "2.16.840.1.101.3.4.1.46" ∷ "1.2.840.113549.1.9.16.3.18" ∷ []

abbrev sample_meeting : Meeting
unfolding sample_env sample_asn1 mlkem_oid nat_discrete build_aead_list aead_oid choose_aead
    string_discrete any all
sample_meeting = record {
  env = sample_env;
  level = 768;
  oid = "2.16.840.1.101.3.4.4.2";
  known = level_known;
  laws = sample-Laws;
  codec = sample-RoundTrips;
  alice_keys = keys_of (1 ∷ []) (2 ∷ []);
  bob_keys = keys_of (2 ∷ []) (1 ∷ []);
  alice_id = id_of 1;
  bob_id = id_of 2;
  alice_seed = 1 ∷ [];
  bob_seed = 2 ∷ [];
  bob_public = refl;
  alice_private = refl;
  bob_private = refl;
  alice_public = refl;
  config_a = default_config;
  config_b = default_config;
  level_a = refl;
  level_b = refl;
  waits_a = omega arith;
  waits_b = omega arith;
  requested = oids;
  advertised = refl;
  chosen = "aes256-gcm";
  agreed = refl;
  accepted = refl;
}

abbrev pub coins_of : ℕ → Coins
coins_of n = record {
  uuid = n ∷ 0 ∷ 0 ∷ 0 ∷ 0 ∷ 0 ∷ 0 ∷ 0 ∷ 0 ∷ 0 ∷ 0 ∷ 0 ∷ 0 ∷ 0 ∷ 0 ∷ 0 ∷ [];
  seed = n ∷ 1 ∷ [];
  first = n ∷ 2 ∷ [];
  second = n ∷ 3 ∷ [];
  nonce = n ∷ 4 ∷ [];
}

-- Both applications have a payload to send.
abbrev sample_run : Run
unfolding sample_meeting aead_oid
sample_run = record {
  meeting = sample_meeting;
  coins_a = coins_of 11;
  coins_b = coins_of 12;
  coins_c = coins_of 13;
  coins_d = coins_of 14;
  coins_e = coins_of 15;
  now_a = 100;
  now_b = 101;
  now_c = 102;
  now_d = 103;
  now_e = 104;
  pa = some (104 ∷ 105 ∷ []);
  pb = some (121 ∷ 111 ∷ []);
  fits_a = omega arith;
  fits_b = omega arith;
  sized = refl;
  aead = "2.16.840.1.101.3.4.1.46";
  named = refl;
}

handshake-Agrees_example : Agrees sample_run
handshake-Agrees_example = handshake-Agrees sample_run

-- A responder gets the request of an initiator.
process_incoming-Outcome_example : Outcome (bob_fresh sample_run) (
    process_incoming sample_env
      (keys_of (2 ∷ []) (1 ∷ []))
      (coins_of 12)
      (request_pdu sample_run)
      101
      (bob_fresh sample_run))
process_incoming-Outcome_example =
    process_incoming-Outcome sample_env (keys_of (2 ∷ []) (1 ∷ [])) (coins_of 12) 101
      (request_pdu sample_run) (bob_fresh sample_run)

-- An initiator that has sent its request at time 100.
abbrev asking : Session
unfolding new_session
asking = record (new_session initiator (some (id_of 1)) default_config) {
  state = expect_session_init_response;
  last_sent = some (1 ∷ 2 ∷ []);
  deadline = some 105;
  outgoing_pdus = (1 ∷ 2 ∷ []) ∷ [];
}

asking-IsWaiting : IsWaiting (1 ∷ 2 ∷ []) asking
unfolding asking
asking-IsWaiting = record {
  role = refl;
  waits = inl refl;
  keeps = refl;
  idle = refl;
  budget = omega arith;
}

abbrev ticks : List (Coins × ℕ)
ticks = (coins_of 1, 105) ∷ (coins_of 2, 111) ∷ (coins_of 3, 120) ∷ []

abbrev idled : Session
idled = idle sample_env (keys_of (1 ∷ []) (2 ∷ [])) ticks asking

idle_gives_up_example :
    (idled.state ≡ dropped)
    × (idled.outgoing_pdus ≡ asking.outgoing_pdus ++ replicate 2 (1 ∷ 2 ∷ []))
unfolding asking
idle_gives_up_example =
    idle_gives_up sample_env (keys_of (1 ∷ []) (2 ∷ [])) ticks (1 ∷ 2 ∷ []) 105 asking
      asking-IsWaiting refl (omega arith, (omega arith, (omega arith, tt))) refl

idle_resends_example :
    (n : ℕ) × (n + 0 ≤ 2) × (idled.outgoing_pdus ≡ asking.outgoing_pdus ++ replicate n (1 ∷ 2 ∷ []))
unfolding asking
idle_resends_example =
    idle_resends sample_env (keys_of (1 ∷ []) (2 ∷ [])) ticks (1 ∷ 2 ∷ []) asking asking-IsWaiting
