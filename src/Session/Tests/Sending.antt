-- ===== src/Session/Tests/Sending.antt =====
-- Traffic after a handshake, at concrete inputs.
use kem_make.Errors.{ok, err, handshake_failed}
use kem_make.Session.Traffic.{InStep, sent_by, pdu_of, got_by, payload_delivered}
use kem_make.Session.Handlers.{send_established_payload}
use kem_make.Wire.Messages.{MakePayload, session_completion_response}
use kem_make.Session.Handshake.Opening.{wire}
use kem_make.Session.Backend.{SessionKeys}
use kem_make.Session.State.{responder, established}
use kem_make.Samples.Backend.{repeat, length-repeat}
use kem_make.Base.{Bytes, ◌≡◌, refl, none, some, [], ◌∷◌, arith, bytes_eq, string_discrete}
use kem_make.Wire.Algorithms.{aead_oid}
use kem_make.Session.Backend.{KeyLookup}
use kem_make.Session.State.{default_config, Session, new_session, initiator}
use kem_make.Session.{process_incoming}
use kem_make.Samples.Messages.{sample-RoundTrips}
use kem_make.Samples.Backend.{sample-Laws, sample_env}
use kem_make.Session.Tests.{id_of, coins_of, level_known, keys_of}

-- Two sessions after a handshake under a correlation id.
abbrev sample_keys : SessionKeys
sample_keys = record {
  aead_name = "aes256-gcm";
  key_a2b = repeat 32 1;
  iv_a2b = repeat 12 2;
  key_b2a = repeat 32 3;
  iv_b2a = repeat 12 4;
}

abbrev sample_cid : Bytes
sample_cid = 9 ∷ 0 ∷ 0 ∷ 0 ∷ 0 ∷ 0 ∷ 0 ∷ 0 ∷ 0 ∷ 0 ∷ 0 ∷ 0 ∷ 0 ∷ 0 ∷ 0 ∷ 0 ∷ []

abbrev last_flight : MakePayload
last_flight = session_completion_response (record { h_m = 1 ∷ []; m = none })

abbrev sender : Session
unfolding new_session
sender = record (new_session initiator (some (id_of 1)) default_config) {
  state = established;
  cid = some sample_cid;
  session_keys = some sample_keys;
  seq_a2b = 1;
}

abbrev receiver : Session
unfolding new_session
receiver = record (new_session responder none default_config) {
  state = established;
  cid = some sample_cid;
  session_keys = some sample_keys;
  seq_a2b = 1;
  last_received = some (wire sample_env.asn1 sample_cid last_flight);
}

sample_pair :
    InStep sample_env initiator "2.16.840.1.101.3.4.1.46" sample_cid sample_keys sender receiver
unfolding sender receiver aead_oid string_discrete
sample_pair = record {
  role_s = refl;
  role_t = refl;
  state_t = refl;
  cid_s = refl;
  cid_t = refl;
  sized = refl;
  keys_s = refl;
  keys_t = refl;
  named = refl;
  key_sized = length-repeat 32 1;
  iv_sized = length-repeat 12 2;
  counted = refl;
  handshake = last_flight;
  handshake_kind = refl;
  last_t = refl;
}

abbrev lookup : KeyLookup
lookup = keys_of (1 ∷ []) (2 ∷ [])

abbrev sent : Bytes → Session
unfolding sender sample_env
sent sealed =
    sent_by sample_env lookup 768 sample-Laws "2.16.840.1.101.3.4.4.2" level_known sample-RoundTrips
      "2.16.840.1.101.3.4.1.46" sample_cid sample_keys initiator sender sealed

abbrev pdu : Bytes → Bytes
unfolding sample_env
pdu sealed =
    pdu_of sample_env lookup 768 sample-Laws "2.16.840.1.101.3.4.4.2" level_known sample-RoundTrips
      "2.16.840.1.101.3.4.1.46" sample_cid sample_keys initiator sender sealed

abbrev got : Session
unfolding sample_env
got =
    got_by sample_env lookup 768 sample-Laws "2.16.840.1.101.3.4.4.2" level_known sample-RoundTrips
      "2.16.840.1.101.3.4.1.46" sample_cid sample_keys initiator receiver (104 ∷ 105 ∷ [])

payload_delivered_example :
    (sealed : Bytes) × (send_established_payload sample_env lookup (104 ∷ 105 ∷ []) sender
      ≡ (ok tt, sent sealed))
    × (process_incoming sample_env lookup (coins_of 1) (pdu sealed) 10 receiver ≡ (ok tt, got))
    × InStep sample_env initiator "2.16.840.1.101.3.4.1.46" sample_cid sample_keys (sent sealed) got
    × (process_incoming sample_env lookup (coins_of 1) (pdu sealed) 20 got
        ≡ (err handshake_failed, got))
unfolding sender sample_env sent pdu got
payload_delivered_example =
    payload_delivered sample_env lookup 768 sample-Laws "2.16.840.1.101.3.4.4.2" level_known
      sample-RoundTrips "2.16.840.1.101.3.4.1.46" sample_cid sample_keys initiator sender receiver
      (104 ∷ 105 ∷ []) (coins_of 1) 10 20 sample_pair (omega arith) (omega arith)
