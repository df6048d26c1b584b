-- ===== src/Session/Handshake/Completion.antt =====
-- The second flight: the initiator answers with its completion request and false-start payload.
use kem_make.Base.{◌+◌, ◌≤◌, Bytes, ◌≡◌, refl, Option, none, some, [], ◌++◌, length, arith}
use kem_make.Base.Dict.{or_else}
use kem_make.Errors.{ok}
use kem_make.Wire.Algorithms.{aead_name-iff_aead_oid}
use kem_make.Wire.Messages.{
  SessionCompletionRequest, session_init_response, session_completion_request,
}
use kem_make.Wire.{build_completion_request, validate_c_m, validate_payload, dump_message}
use kem_make.Wire.Canonical.{load_message-encode}
use kem_make.Session.Backend.{SessionKeys, expand_keys}
use kem_make.Session.State.{Session, state_discrete, new_session, pdu_ready, at}
use kem_make.Session.Answers.{ResponseAnswer, answer_init_response}
use kem_make.Session.Handlers.{commit_init_response, handle_session_init_response}
use kem_make.Session.Laws.{
  max_text, ciphertext_of, secret_of, encapsulate_lem, decapsulate_lem, derive_lem,
  expand_keys_sizes, Sealing, encrypt_total,
}
use kem_make.Session.{
  update, post_pdu, process_queued, process_incoming, process_loaded, process_message, dispatch,
  send_pending, settle, is_due, next_update_result, poll_pdu, poll_payload,
}
use kem_make.Session.Handshake.Opening.{
  envelope, wire, build_message_lem, alice_waiting, response, response_pdu,
}
use kem_make.Session.Handshake.Meeting.{Run, Fits}

module _ (m : Run) where
  open m use {
    coins_a,
    coins_b,
    coins_c,
    now_c,
    now_d,
    coins_d,
    pa,
    pb,
    sized,
    aead,
    named,
    fits_a,
    fits_b,
    meeting.{
      env, level, oid, known, laws, alice_keys, bob_keys, alice_id, alice_seed, bob_seed, config_a,
      config_b,
    },
  }

  abbrev pub uuid : Bytes
  uuid = coins_a.uuid

  abbrev pub s1 : Bytes
  s1 = secret_of env.backend level laws oid known bob_seed coins_a.first

  abbrev pub s2 : Bytes
  s2 =
      secret_of env.backend level laws oid known (env.backend.generate level coins_a.seed)
        coins_b.first

  abbrev pub s3 : Bytes
  s3 = secret_of env.backend level laws oid known alice_seed coins_b.second

  abbrev pub s4 : Bytes
  s4 =
      secret_of env.backend level laws oid known (env.backend.generate level coins_b.seed)
        coins_c.first

  -- The keys of the session, from both nonces, the initiator's key id and all four secrets.
  abbrev pub shared_keys : SessionKeys
  shared_keys =
      expand_keys env.backend (coins_c.nonce ++ coins_b.nonce) (env.asn1.dump_key_id alice_id)
        (s1 ++ (s2 ++ (s3 ++ s4))) m.chosen 32

  pub sizes :
      (shared_keys.aead_name ≡ m.chosen)
      × (length shared_keys.key_a2b ≡ 32)
      × (length shared_keys.iv_a2b ≡ 12)
      × (length shared_keys.key_b2a ≡ 32)
      × (length shared_keys.iv_b2a ≡ 12)
  sizes = expand_keys_sizes env.backend level laws oid known _ _ _ m.chosen

  abbrev pub text_of : Option Bytes → Bytes
  text_of payload = or_else payload []

  pub text-Fits : (payload : Option Bytes) → Fits payload → length (text_of payload) ≤ max_text
  text-Fits none h = omega arith
  text-Fits (some payload) h = h

  -- The false-start payload under the initiator's key.
  pub sealed :
      Sealing env.backend m.chosen shared_keys.key_a2b shared_keys.iv_a2b 0 (text_of pa) uuid
  sealed =
      encrypt_total env.backend level laws oid known m.chosen aead shared_keys.key_a2b
        shared_keys.iv_a2b 0 (text_of pa) uuid named sizes.1 sizes.2 (omega arith)
        (text-Fits pa fits_a)

  abbrev pub completion : SessionCompletionRequest
  completion = record {
    c_m = sealed.sealed;
    ct4 =
        ciphertext_of env.backend level laws oid known (env.backend.generate level coins_b.seed)
          coins_c.first;
    n_a = coins_c.nonce;
  }

  abbrev pub completion_pdu : Bytes
  completion_pdu = wire env.asn1 uuid (session_completion_request completion)

  abbrev pub alice_before : Session
  alice_before = alice_waiting m

  abbrev pub response_answer : ResponseAnswer
  response_answer = record {
    n_a = coins_c.nonce;
    n_b = coins_b.nonce;
    ct4 = completion.ct4;
    chosen = m.chosen;
    keys = shared_keys;
    plaintext = text_of pa;
    c_m = sealed.sealed;
  }

  abbrev pub answered_pdu : Bytes
  answered_pdu = response_pdu m

  abbrev pub alice_confirming : Session
  alice_confirming =
      commit_init_response answered_pdu completion_pdu now_c response_answer
        (record alice_before { pending_payload = none })

  answer_init_response_lem :
      (s : Session)
      → s ≡ alice_before
      → answer_init_response env alice_keys s coins_c (response m) ≡ ok response_answer
  unfolding answer_init_response new_session
  answer_init_response_lem s same = ground (
    arith,
    m.alice_private,
    m.level_a,
    m.accepted,
    (aead_name-iff_aead_oid m.chosen aead).1 named,
    decapsulate_lem env.backend level laws oid known (env.backend.generate level coins_a.seed)
        coins_b.first,
    decapsulate_lem env.backend level laws oid known alice_seed coins_b.second,
    encapsulate_lem env.backend level laws oid known (env.backend.generate level coins_b.seed)
        coins_c.first,
    derive_lem env.backend level laws oid known coins_c.nonce coins_b.nonce
        (env.asn1.dump_key_id alice_id) s1 s2 s3 s4 m.chosen aead named,
    sizes.0,
    sealed.made,
  )

  pub response_delivered :
      update env alice_keys coins_c now_c (post_pdu answered_pdu alice_before)
      ≡ (ok (pdu_ready, at (now_c + config_a.retry_interval_seconds)), alice_confirming)
  unfolding update post_pdu process_queued process_incoming process_loaded process_message dispatch
      handle_session_init_response build_completion_request validate_c_m dump_message
      validate_payload send_pending settle is_due next_update_result poll_pdu poll_payload
      new_session state_discrete
  response_delivered = ground (
    arith,
    m.waits_a,
    (load_message-encode env.asn1 m.codec (envelope uuid (session_init_response (response m)))).1
        (sized, tt),
    answer_init_response_lem (record alice_before { incoming_queue = [] }) refl,
    sealed.tagged,
    build_message_lem uuid (session_completion_request completion) sized,
  )
