-- ===== src/Session/Handshake/Opening.antt =====
-- The first flight: the initiator's request and the responder's answer, as explicit values.
use kem_make.Base.{
  ◌+◌, String, Bytes, ◌≡◌, refl, none, some, List, [], ◌∷◌, length, arith, Option-cases, inl, inr,
  Bool-cases,
}
use kem_make.Errors.{ok}
use kem_make.Wire.Algorithms.{aead_oid}
use kem_make.Wire.Messages.{
  MakePayload, MakeMessage, pos, SessionInitRequest, SessionInitResponse, session_init_request,
  session_init_response,
}
use kem_make.Wire.{Asn1, RoundTrips, build_message, validate_cid, validate_payload, dump_message}
use kem_make.Wire.Canonical.{load_message-encode}
use kem_make.Session.Handshake.Meeting.{Run}
use kem_make.Session.State.{
  initiator, responder, expect_session_init_response, Session, new_session, state_discrete,
  pdu_ready, at,
}
use kem_make.Session.Answers.{InitAnswer, choose_aead, is_in, answer_init_request}
use kem_make.Session.Handlers.{commit_init_request, handle_session_init_request}
use kem_make.Session.Laws.{
  public_of, ciphertext_of, secret_of, generate_ephemeral_lem, encapsulate_lem, decapsulate_lem,
  level_of-public_of,
}
use kem_make.Session.{
  initiate, require_initiator, update, post_pdu, process_queued, process_incoming, process_loaded,
  process_message, accept_first, send_pending, settle, is_due, next_update_result, poll_pdu,
  poll_payload,
}

-- A name that was chosen has an OID.
pub aead_oid-choose_aead :
    (names requested : List String) (chosen : String)
    → choose_aead names requested ≡ ok (some chosen)
    → (oid : String) × (aead_oid chosen ≡ some oid)
unfolding choose_aead
aead_oid-choose_aead [] requested chosen h = absurd (ground arith)
aead_oid-choose_aead (name ∷ names) requested chosen h = elim (Option-cases (aead_oid name)) [
  | inl absent ↦ absurd (ground arith)
  | inr (oid, found) ↦ elim (Bool-cases (is_in oid requested)) [
    | inl hit ↦ (oid, ground arith)
    | inr miss ↦ aead_oid-choose_aead names requested chosen (ground arith)
  ]
]

-- What a payload under a cid of 16 bytes is on the wire.
abbrev pub envelope : Bytes → MakePayload → MakeMessage
envelope cid payload = record { version = pos 0; cid = cid; payload = payload }

abbrev pub wire : Asn1 → Bytes → MakePayload → Bytes
wire asn1 cid payload = asn1.make_message.encode (envelope cid payload)

-- Different payloads are different on the wire.
pub wire-injective :
    (asn1 : Asn1) (cid : Bytes) (p q : MakePayload)
    → RoundTrips asn1.make_message
    → wire asn1 cid p ≡ wire asn1 cid q
    → p ≡ q
wire-injective asn1 cid p q codec e = cc (codec (envelope cid p), codec (envelope cid q))

pub build_message_lem :
    (cid : Bytes) (payload : MakePayload)
    → length cid ≡ 16
    → build_message cid payload ≡ ok (envelope cid payload)
unfolding build_message validate_cid
build_message_lem cid payload sized = ground arith

module _ (m : Run) where
  open m use {coins_a, coins_b, pa, pb, now_a, now_b, sized, aead, named}
  open m use {
    meeting.{
      env, level, oid, known, laws, alice_keys, bob_keys, alice_id, bob_id, alice_seed, bob_seed,
      config_a, config_b,
    },
  }

  abbrev pub cid : Bytes
  cid = coins_a.uuid

  abbrev pub alice_ephemeral : Bytes
  alice_ephemeral = env.backend.generate level coins_a.seed

  abbrev pub bob_ephemeral : Bytes
  bob_ephemeral = env.backend.generate level coins_b.seed

  abbrev pub request : SessionInitRequest
  request = record {
    ct1 = ciphertext_of env.backend level laws oid known bob_seed coins_a.first;
    key_id_b = bob_id;
    pk_a_star = public_of env.backend level laws oid known alice_ephemeral;
    key_id_a = alice_id;
    acceptable_aeads = m.requested;
  }

  abbrev pub request_pdu : Bytes
  request_pdu = wire env.asn1 cid (session_init_request request)

  abbrev pub alice_fresh : Session
  alice_fresh = record (new_session initiator (some alice_id) config_a) { pending_payload = pa }

  abbrev pub alice_waiting : Session
  alice_waiting = record alice_fresh {
    cid = some cid;
    peer_key_id = some bob_id;
    own_ephemeral_private = some (record { level = level; seed = alice_ephemeral });
    own_ephemeral_public = some (public_of env.backend level laws oid known alice_ephemeral);
    s1 = some (secret_of env.backend level laws oid known bob_seed coins_a.first);
    last_sent = some request_pdu;
    deadline = some (now_a + config_a.retry_interval_seconds);
    state = expect_session_init_response;
    outgoing_pdus = request_pdu ∷ [];
  }

  pub initiate_lem :
      initiate env alice_keys coins_a bob_id now_a alice_fresh ≡ (ok tt, alice_waiting)
  unfolding initiate require_initiator new_session state_discrete dump_message validate_payload
  initiate_lem = ground (
    arith,
    m.level_a,
    m.bob_public,
    m.advertised,
    generate_ephemeral_lem env.backend level laws oid known coins_a.seed,
    encapsulate_lem env.backend level laws oid known bob_seed coins_a.first,
    build_message_lem cid (session_init_request request) sized,
  )

  abbrev pub response : SessionInitResponse
  response = record {
    pk_b_star = public_of env.backend level laws oid known bob_ephemeral;
    ct2 = ciphertext_of env.backend level laws oid known alice_ephemeral coins_b.first;
    ct3 = ciphertext_of env.backend level laws oid known alice_seed coins_b.second;
    n_b = coins_b.nonce;
    chosen_aead = aead;
  }

  abbrev pub response_pdu : Bytes
  response_pdu = wire env.asn1 cid (session_init_response response)

  abbrev pub bob_fresh : Session
  bob_fresh = record (new_session responder none config_b) { pending_payload = pb }

  abbrev pub init_answer : InitAnswer
  init_answer = record {
    own_ephemeral = (
      record { level = level; seed = bob_ephemeral },
      public_of env.backend level laws oid known bob_ephemeral,
    );
    peer_static_public = public_of env.backend level laws oid known alice_seed;
    s1 = secret_of env.backend level laws oid known bob_seed coins_a.first;
    s2 = secret_of env.backend level laws oid known alice_ephemeral coins_b.first;
    s3 = secret_of env.backend level laws oid known alice_seed coins_b.second;
    chosen = m.chosen;
    pdu = response_pdu;
  }

  abbrev pub bob_waiting : Session
  bob_waiting =
      commit_init_request request coins_b.nonce request_pdu now_b init_answer
        (record bob_fresh { cid = some cid })

  answer_init_request_lem :
      (s : Session)
      → s.cid ≡ some cid
      → s.config ≡ config_b
      → answer_init_request env bob_keys s coins_b request ≡ ok init_answer
  unfolding answer_init_request dump_message validate_payload
  answer_init_request_lem s own same = ground (
    arith,
    m.bob_private,
    m.alice_public,
    m.agreed,
    level_of-public_of env.backend level laws oid known alice_ephemeral,
    decapsulate_lem env.backend level laws oid known bob_seed coins_a.first,
    generate_ephemeral_lem env.backend level laws oid known coins_b.seed,
    encapsulate_lem env.backend level laws oid known alice_ephemeral coins_b.first,
    encapsulate_lem env.backend level laws oid known alice_seed coins_b.second,
    build_message_lem cid (session_init_response response) sized,
  )

  pub request_delivered :
      update env bob_keys coins_b now_b (post_pdu request_pdu bob_fresh)
      ≡ (ok (pdu_ready, at (now_b + config_b.ttl_seconds)), bob_waiting)
  unfolding update post_pdu process_queued process_incoming process_loaded process_message
      accept_first handle_session_init_request send_pending settle is_due next_update_result
      poll_pdu poll_payload new_session state_discrete
  request_delivered = ground (
    arith,
    m.waits_b,
    (load_message-encode env.asn1 m.codec (envelope cid (session_init_request request))).1
        (sized, tt),
    answer_init_request_lem (record bob_fresh { cid = some cid }) refl refl,
  )
