-- ===== src/Session/Handlers.antt =====
-- src/kem_make/session.py: the handlers of the incoming PDUs and of an outgoing payload, as
-- actions on the session.
use kem_make.Base.{
  ℕ, ◌+◌, Bytes, Bool, false, not, Option, none, some, List, [], ◌∷◌, ◌++◌, ◌==◌, nat_eq, bytes_eq,
}
use kem_make.Errors.{raise_if, handshake_failed}
use kem_make.Wire.Messages.{
  Integer, pos, negsuc, SessionInitRequest, SessionInitResponse, SessionCompletionRequest,
  SessionCompletionResponse, Message, session_completion_request, session_completion_response,
  message,
}
use kem_make.Wire.{build_completion_request, build_message, dump_message}
use kem_make.Session.Backend.{Env, KeyLookup, Coins, SessionKeys, encrypt, decrypt}
use kem_make.Session.State.{
  Role, initiator, responder, established, expect_session_completion_request,
  expect_session_completion_response, Session, Action, pure, lift, gets, modify, ◌>>=◌, ◌>>◌, used,
  append_pdu, append_payload,
}
use kem_make.Session.Answers.{
  InitAnswer, CompletionAnswer, ResponseAnswer, answer_init_request, open_completion_request,
  answer_init_response, decrypt_reply,
}

-- `seq != expected_seq`, on what the peer sent
abbrev pub seq_is : Integer → ℕ → Bool
seq_is (pos n) expected = n == expected
seq_is (negsuc n) expected = false

-- the counter, and the key with its IV, of the direction in which a role sends
abbrev pub sending_seq : Role → Session → ℕ
sending_seq initiator s = s.seq_a2b
sending_seq responder s = s.seq_b2a

abbrev pub receiving_seq : Role → Session → ℕ
receiving_seq initiator s = s.seq_b2a
receiving_seq responder s = s.seq_a2b

abbrev pub sending_key : Role → SessionKeys → Bytes × Bytes
sending_key initiator k = (k.key_a2b, k.iv_a2b)
sending_key responder k = (k.key_b2a, k.iv_b2a)

abbrev pub receiving_key : Role → SessionKeys → Bytes × Bytes
receiving_key initiator k = (k.key_b2a, k.iv_b2a)
receiving_key responder k = (k.key_a2b, k.iv_a2b)

abbrev pub count_sent : Role → Session → Session
count_sent initiator s = record s { seq_a2b = s.seq_a2b + 1 }
count_sent responder s = record s { seq_b2a = s.seq_b2a + 1 }

abbrev pub count_received : Role → Session → Session
count_received initiator s = record s { seq_b2a = s.seq_b2a + 1 }
count_received responder s = record s { seq_a2b = s.seq_a2b + 1 }

-- the assignments of `_handle_session_init_request`
abbrev pub commit_init_request :
    SessionInitRequest → Bytes → Bytes → ℕ → InitAnswer → Session → Session
commit_init_request req n_b der now a s = record s {
  own_ephemeral_private = some a.own_ephemeral.0;
  own_ephemeral_public = some a.own_ephemeral.1;
  peer_static_public = some a.peer_static_public;
  peer_key_id = some req.key_id_a;
  s1 = some a.s1;
  s2 = some a.s2;
  s3 = some a.s3;
  n_b = some n_b;
  chosen_aead = some a.chosen;
  last_received = some der;
  last_sent = some a.pdu;
  attempt_count = 0;
  deadline = some (now + s.config.ttl_seconds);
  state = expect_session_completion_request;
  outgoing_pdus = s.outgoing_pdus ++ a.pdu ∷ [];
}

-- those at the end of `_handle_session_completion_request`
abbrev pub commit_completion_request : Bytes → Bytes → CompletionAnswer → Session → Session
commit_completion_request der out_der a s = record s {
  n_a = some a.n_a;
  s4 = some a.s4;
  session_keys = some a.keys;
  seq_a2b = 1;
  last_received = some der;
  last_sent = some out_der;
  state = established;
  deadline = none;
  outgoing_pdus = s.outgoing_pdus ++ out_der ∷ [];
}

-- those at the end of `_handle_session_init_response`
abbrev pub commit_init_response : Bytes → Bytes → ℕ → ResponseAnswer → Session → Session
commit_init_response der out_der now a s = record s {
  n_a = some a.n_a;
  n_b = some a.n_b;
  chosen_aead = some a.chosen;
  session_keys = some a.keys;
  seq_a2b = 1;
  sent_plaintext_for_h_m = some a.plaintext;
  last_received = some der;
  last_sent = some out_der;
  attempt_count = 0;
  deadline = some (now + s.config.retry_interval_seconds);
  state = expect_session_completion_response;
  outgoing_pdus = s.outgoing_pdus ++ out_der ∷ [];
}

-- those at the end of `_handle_session_completion_response`
abbrev pub commit_completion_response : Bytes → Session → Session
commit_completion_response der s = record s {
  last_received = some der;
  last_sent = none;
  state = established;
  deadline = none;
}

-- `if plaintext: self._outgoing_payloads.append(plaintext)`
abbrev pub unless_empty : Bytes → List Bytes
unless_empty [] = []
unless_empty (b ∷ bs) = (b ∷ bs) ∷ []

abbrev pub append_nonempty : Bytes → Session → Session
append_nonempty plaintext s = record s {
  outgoing_payloads = s.outgoing_payloads ++ unless_empty plaintext;
}

module _ (env : Env) (keys : KeyLookup) where
  unfoldable pub handle_session_init_request :
      Coins → SessionInitRequest → Bytes → ℕ → Action (Unit {0})
  handle_session_init_request coins req der now = do
    answer ← λ s. lift (answer_init_request env keys s coins req) s
    modify (commit_init_request req coins.nonce der now answer)

  -- the reply that rides along in `_handle_session_completion_request`
  unfoldable pub seal_pending_reply : CompletionAnswer → Action (Option Bytes)
  seal_pending_reply a = do
    pending ← gets (λ s. s.pending_payload)
    elim pending [
      | none ↦ pure none
      | some payload ↦ do
        cid ← λ s. lift (used s.cid) s
        reply ←
            lift (encrypt env.backend a.keys.aead_name a.keys.key_b2a a.keys.iv_b2a 0 payload cid)
        modify (λ s. record s { seq_b2a = 1; pending_payload = none })
        pure (some reply)
    ]

  unfoldable pub handle_session_completion_request :
      SessionCompletionRequest → Bytes → ℕ → Action (Unit {0})
  handle_session_completion_request req der now = do
    answer ← λ s. lift (open_completion_request env keys s req) s
    modify (append_nonempty answer.plaintext)
    reply ← seal_pending_reply answer
    cid ← λ s. lift (used s.cid) s
    out_msg ← lift (
        build_message cid (
          session_completion_response
            (record { h_m = env.backend.sha256 answer.plaintext; m = reply })))
    out_der ← lift (dump_message env.asn1 out_msg)
    modify (commit_completion_request der out_der answer)

  unfoldable pub handle_session_init_response :
      Coins → SessionInitResponse → Bytes → ℕ → Action (Unit {0})
  handle_session_init_response coins resp der now = do
    answer ← λ s. lift (answer_init_response env keys s coins resp) s
    modify (λ s. record s { pending_payload = none })
    req ← lift (build_completion_request answer.c_m answer.ct4 answer.n_a)
    cid ← λ s. lift (used s.cid) s
    out_msg ← lift (build_message cid (session_completion_request req))
    out_der ← lift (dump_message env.asn1 out_msg)
    modify (commit_init_response der out_der now answer)

  -- the optional reply in a `SessionCompletionResponse`
  unfoldable pub open_reply : Option Bytes → Action (Unit {0})
  open_reply none = pure tt
  open_reply (some ciphertext) = do
    reply ← λ s. lift (decrypt_reply env keys s ciphertext) s
    modify (λ s. append_payload reply (record s { seq_b2a = 1 }))

  unfoldable pub handle_session_completion_response :
      SessionCompletionResponse → Bytes → ℕ → Action (Unit {0})
  handle_session_completion_response resp der now = do
    sent ← λ s. lift (used s.sent_plaintext_for_h_m) s
    lift (raise_if (not (resp.h_m == env.backend.sha256 sent)) handshake_failed)
    open_reply resp.m
    modify (commit_completion_response der)

  unfoldable pub send_established_payload : Bytes → Action (Unit {0})
  send_established_payload payload = do
    modify (λ s. record s { pending_payload = none })
    role ← gets (λ s. s.role)
    seq ← gets (sending_seq role)
    k ← λ s. lift (used s.session_keys) s
    cid ← λ s. lift (used s.cid) s
    ct ← lift (
        encrypt env.backend k.aead_name (sending_key role k).0 (sending_key role k).1 seq payload
          cid)
    modify (count_sent role)
    out_msg ← lift (build_message cid (message (record { seq = pos seq; m = ct })))
    out_der ← lift (dump_message env.asn1 out_msg)
    modify (append_pdu out_der)

  unfoldable pub handle_established_message : Message → Action (Unit {0})
  handle_established_message inner = do
    role ← gets (λ s. s.role)
    k ← λ s. lift (used s.session_keys) s
    expected_seq ← gets (receiving_seq role)
    lift (raise_if (not (seq_is inner.seq expected_seq)) handshake_failed)
    cid ← λ s. lift (used s.cid) s
    plaintext ← lift (
        decrypt env.backend k.aead_name (receiving_key role k).0 (receiving_key role k).1
          expected_seq inner.m cid)
    modify (λ s. append_payload plaintext (count_received role s))
