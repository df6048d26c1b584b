-- ===== src/Session/Handshake/Reply.antt =====
-- The responder takes the completion request and answers it.
use kem_make.Base.{
  ℕ, ◌+◌, ◌≤◌, Bytes, ◌≡◌, ◌≢◌, refl, Option, none, some, [], ◌∷◌, length, arith, List-cases,
}
use kem_make.Errors.{ok}
use kem_make.Wire.Messages.{
  SessionCompletionResponse, session_completion_request, session_completion_response,
}
use kem_make.Wire.{validate_payload, dump_message}
use kem_make.Wire.Canonical.{load_message-encode}
use kem_make.Session.State.{
  Session, state_discrete, new_session, UpdateResult, pdu_ready, payload_ready, at,
}
use kem_make.Session.Answers.{CompletionAnswer, open_completion_request}
use kem_make.Session.Handlers.{
  commit_completion_request, append_nonempty, seal_pending_reply, handle_session_completion_request,
}
use kem_make.Session.Laws.{max_text, decapsulate_lem, derive_lem, Sealing, encrypt_total}
use kem_make.Session.{
  update, post_pdu, process_queued, process_incoming, process_loaded, process_message, dispatch,
  send_pending, settle, is_due, next_update_result, poll_pdu, poll_payload,
}
use kem_make.Session.Handshake.Opening.{
  envelope, wire, wire-injective, build_message_lem, bob_waiting, request_pdu,
}
use kem_make.Session.Handshake.Meeting.{Run, Fits}
use kem_make.Session.Handshake.Completion.{
  uuid, s1, s2, s3, s4, shared_keys, sizes, text_of, sealed, completion, completion_pdu,
}

module _ (m : Run) where
  open m use {
    coins_a,
    coins_b,
    coins_c,
    now_c,
    now_d,
    coins_d,
    pa,
    pb,
    sized,
    aead,
    named,
    fits_a,
    fits_b,
    meeting.{
      env, level, oid, known, laws, alice_keys, bob_keys, alice_id, alice_seed, bob_seed, config_a,
      config_b,
    },
  }

  abbrev pub bob_before : Session
  bob_before = bob_waiting m

  abbrev pub completion_answer : CompletionAnswer
  completion_answer = record {
    n_a = coins_c.nonce;
    s4 = s4 m;
    keys = (shared_keys m);
    plaintext = (text_of m) pa;
  }

  open_completion_request_lem :
      (s : Session)
      → s ≡ bob_before
      → open_completion_request env bob_keys s (completion m) ≡ ok completion_answer
  unfolding open_completion_request new_session
  open_completion_request_lem s same = ground (
    arith,
    m.level_b,
    decapsulate_lem env.backend level laws oid known (env.backend.generate level coins_b.seed)
        coins_c.first,
    derive_lem env.backend level laws oid known coins_c.nonce coins_b.nonce
        (env.asn1.dump_key_id alice_id) (s1 m) (s2 m) (s3 m) (s4 m) m.chosen aead named,
    (sizes m).0,
    (sealed m).opened,
  )

  -- The responder's payload under its own key, if it has one to send.
  abbrev pub sealed_reply :
      (payload : Bytes)
      → length payload ≤ max_text
      → Sealing env.backend m.chosen
          (shared_keys m).key_b2a
          (shared_keys m).iv_b2a
          0
          payload
          (uuid m)
  sealed_reply payload fits =
      encrypt_total env.backend level laws oid known m.chosen aead (shared_keys m).key_b2a
        (shared_keys m).iv_b2a 0 payload (uuid m) named (sizes m).3 (sizes m).4 (omega arith) fits

  abbrev pub reply_of : (payload : Option Bytes) → Fits payload → Option Bytes
  reply_of none fits = none
  reply_of (some payload) fits = some (sealed_reply payload fits).sealed

  abbrev pub replied : Option Bytes → ℕ
  replied none = 0
  replied (some payload) = 1

  abbrev pub acknowledgement : SessionCompletionResponse
  acknowledgement = record { h_m = env.backend.sha256 ((text_of m) pa); m = reply_of pb fits_b }

  abbrev pub acknowledgement_pdu : Bytes
  acknowledgement_pdu = wire env.asn1 (uuid m) (session_completion_response acknowledgement)

  abbrev pub bob_established : Session
  bob_established =
      commit_completion_request (completion_pdu m) acknowledgement_pdu completion_answer (
        append_nonempty ((text_of m) pa)
          (record bob_before { pending_payload = none; seq_b2a = replied pb }))

  seal_pending_reply_lem :
      (p : Option Bytes) (fits : Fits p) (s : Session)
      → s.pending_payload ≡ p
      → s.cid ≡ some (uuid m)
      → s.seq_b2a ≡ 0
      → seal_pending_reply env bob_keys completion_answer s
        ≡ (ok (reply_of p fits), record s { pending_payload = none; seq_b2a = replied p })
  unfolding seal_pending_reply
  seal_pending_reply_lem none fits s waiting own start = ground arith
  seal_pending_reply_lem (some payload) fits s waiting own start =
      ground (arith, (sizes m).0, (sealed_reply payload fits).made)

  -- What the responder reports: its application has a payload to read, if one was sent.
  abbrev pub reported : Bytes → UpdateResult
  reported [] = pdu_ready
  reported (b ∷ bs) = payload_ready

  completion_handled :
      handle_session_completion_request env bob_keys
        (completion m)
        (completion_pdu m)
        now_d
        (record bob_before { incoming_queue = [] })
      ≡ (ok tt, bob_established)
  unfolding handle_session_completion_request dump_message validate_payload new_session
  completion_handled = ground (
    arith,
    open_completion_request_lem (record bob_before { incoming_queue = [] }) refl,
    seal_pending_reply_lem pb fits_b
        (append_nonempty ((text_of m) pa) (record bob_before { incoming_queue = [] })) refl refl
        refl,
    build_message_lem (uuid m) (session_completion_response acknowledgement) sized,
  )

  pub completion_delivered :
      update env bob_keys coins_d now_d (post_pdu (completion_pdu m) bob_before) ≡ (
        ok (reported ((text_of m) pa), at (now_d + config_b.retry_interval_seconds)),
        bob_established,
      )
  unfolding update post_pdu process_queued process_incoming process_loaded process_message dispatch
      send_pending settle is_due next_update_result poll_pdu poll_payload new_session state_discrete
  completion_delivered = ground (
    arith,
    List-cases ((text_of m) pa),
    not_again,
    (load_message-encode env.asn1 m.codec
          (envelope (uuid m) (session_completion_request (completion m)))).1
        (sized, (sealed m).tagged),
    completion_handled,
  )
    where
      not_again : (completion_pdu m) ≢ request_pdu m
      not_again e = cc (wire-injective env.asn1 (uuid m) _ _ m.codec e)
