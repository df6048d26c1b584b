-- ===== src/Session/Handshake/Agreement.antt =====
-- The initiator takes the acknowledgement, and the whole handshake as one statement.
use kem_make.Base.{Bytes, ◌≡◌, ◌≢◌, refl, Option, none, some, List, [], ◌∷◌, arith, ◌+◌}
use kem_make.Errors.{ok}
use kem_make.Wire.Messages.{session_completion_response}
use kem_make.Wire.Canonical.{load_message-encode}
use kem_make.Session.Backend.{SessionKeys}
use kem_make.Session.State.{
  Session, established, UpdateResult, pdu_ready, payload_ready, at, state_discrete, new_session,
}
use kem_make.Session.Answers.{decrypt_reply}
use kem_make.Session.Handlers.{
  commit_completion_response, open_reply, handle_session_completion_response, unless_empty,
}
use kem_make.Session.{
  initiate, update, post_pdu, process_queued, process_incoming, process_loaded, process_message,
  dispatch, send_pending, settle, is_due, next_update_result, poll_pdu, poll_payload,
}
use kem_make.Session.Handshake.Opening.{
  envelope, wire-injective, response_pdu, request_pdu, alice_fresh, alice_waiting, bob_fresh,
  bob_waiting, initiate_lem, request_delivered,
}
use kem_make.Session.Handshake.Meeting.{Run, Fits}
use kem_make.Session.Handshake.Completion.{
  uuid, shared_keys, sizes, text_of, completion_pdu, alice_confirming, response_delivered,
}
use kem_make.Session.Handshake.Reply.{
  sealed_reply, reply_of, replied, acknowledgement, acknowledgement_pdu, bob_established,
  completion_delivered, reported,
}

-- The payloads that an application gets from what the other has queued.
abbrev pub replies : Option Bytes → List Bytes
replies none = []
replies (some payload) = payload ∷ []

module _ (m : Run) where
  open m use {
    coins_a,
    coins_b,
    coins_c,
    coins_d,
    coins_e,
    now_a,
    now_b,
    now_c,
    now_d,
    now_e,
    pa,
    pb,
    sized,
    fits_b,
    meeting.{env, alice_keys, bob_keys, bob_id, config_a, config_b},
  }

  open_reply_lem :
      (p : Option Bytes) (fits : Fits p) (s : Session)
      → s.session_keys ≡ some (shared_keys m)
      → s.cid ≡ some (uuid m)
      → s.outgoing_payloads ≡ []
      → s.seq_b2a ≡ 0
      → open_reply env alice_keys (reply_of m p fits) s
        ≡ (ok tt, record s { outgoing_payloads = replies p; seq_b2a = replied m p })
  unfolding open_reply decrypt_reply
  open_reply_lem none fits s keyed own empty start = ground arith
  open_reply_lem (some payload) fits s keyed own empty start =
      ground (arith, (sizes m).0, (sealed_reply m payload fits).opened)

  abbrev pub alice_established : Session
  alice_established =
      commit_completion_response (acknowledgement_pdu m)
        (record (alice_confirming m) { outgoing_payloads = replies pb; seq_b2a = replied m pb })

  acknowledgement_handled :
      handle_session_completion_response env alice_keys
        (acknowledgement m)
        (acknowledgement_pdu m)
        now_e
        (alice_confirming m)
      ≡ (ok tt, alice_established)
  unfolding handle_session_completion_response new_session
  acknowledgement_handled =
      ground (arith, open_reply_lem pb fits_b (alice_confirming m) refl refl refl refl)

  abbrev pub read : Option Bytes → UpdateResult
  read none = pdu_ready
  read (some payload) = payload_ready

  acknowledgement_delivered :
      update env alice_keys coins_e now_e (post_pdu (acknowledgement_pdu m) (alice_confirming m))
      ≡ (ok (read pb, at (now_e + config_a.retry_interval_seconds)), alice_established)
  unfolding update post_pdu process_queued process_incoming process_loaded process_message dispatch
      send_pending settle is_due next_update_result poll_pdu poll_payload new_session state_discrete
  acknowledgement_delivered = ground (
    arith,
    not_again,
    (load_message-encode env.asn1 m.codec
          (envelope (uuid m) (session_completion_response (acknowledgement m)))).1
        (sized, tt),
    acknowledgement_handled,
  )
    where
      not_again : acknowledgement_pdu m ≢ response_pdu m
      not_again e = cc (wire-injective env.asn1 (uuid m) _ _ m.codec e)

-- How the four PDUs pass between the two sessions, and where that leaves them.
pub record Agrees (m : Run) : Type 0 where
  pub pdu_1 : Bytes
  pub pdu_2 : Bytes
  pub pdu_3 : Bytes
  pub pdu_4 : Bytes
  pub alice_1 : Session
  pub alice_2 : Session
  pub alice_3 : Session
  pub bob_1 : Session
  pub bob_2 : Session
  pub initiated :
      initiate m.env m.alice_keys m.coins_a m.bob_id m.now_a (alice_fresh m) ≡ (ok tt, alice_1)
  pub sent_1 : alice_1.outgoing_pdus ≡ pdu_1 ∷ []
  pub answered :
      update m.env m.bob_keys m.coins_b m.now_b (post_pdu pdu_1 (bob_fresh m))
      ≡ (ok (pdu_ready, at (m.now_b + m.config_b.ttl_seconds)), bob_1)
  pub sent_2 : bob_1.outgoing_pdus ≡ pdu_2 ∷ []
  pub completed :
      update m.env m.alice_keys m.coins_c m.now_c (post_pdu pdu_2 alice_1)
      ≡ (ok (pdu_ready, at (m.now_c + m.config_a.retry_interval_seconds)), alice_2)
  pub sent_3 : alice_2.outgoing_pdus ≡ pdu_1 ∷ pdu_3 ∷ []
  pub accepted :
      update m.env m.bob_keys m.coins_d m.now_d (post_pdu pdu_3 bob_1)
      ≡ (ok (reported m (text_of m m.pa), at (m.now_d + m.config_b.retry_interval_seconds)), bob_2)
  pub sent_4 : bob_2.outgoing_pdus ≡ pdu_2 ∷ pdu_4 ∷ []
  pub confirmed :
      update m.env m.alice_keys m.coins_e m.now_e (post_pdu pdu_4 alice_2)
      ≡ (ok (read m m.pb, at (m.now_e + m.config_a.retry_interval_seconds)), alice_3)
  pub established_a : alice_3.state ≡ established
  pub established_b : bob_2.state ≡ established
  pub keys : SessionKeys
  pub keys_a : alice_3.session_keys ≡ some keys
  pub keys_b : bob_2.session_keys ≡ some keys
  pub cid_a : alice_3.cid ≡ some m.coins_a.uuid
  pub cid_b : bob_2.cid ≡ some m.coins_a.uuid
  pub delivered_to_b : bob_2.outgoing_payloads ≡ unless_empty (text_of m m.pa)
  pub delivered_to_a : alice_3.outgoing_payloads ≡ replies m.pb
  pub in_step_a2b : alice_3.seq_a2b ≡ bob_2.seq_a2b
  pub in_step_b2a : alice_3.seq_b2a ≡ bob_2.seq_b2a

-- Two parties that hold each other's static public keys, agree on a KEM level and share an AEAD
-- algorithm complete the handshake in four PDUs, whatever the randomness: every call returns
-- without a raise and with the stated report, each sends the PDU that the other then takes, and
-- both end established under the same cid, with the same four keys and equal counters. The
-- payload that each had queued, if any, is what the other's application gets.
pub handshake-Agrees : (m : Run) → Agrees m
unfolding new_session
handshake-Agrees m = record {
  pdu_1 = request_pdu m;
  pdu_2 = response_pdu m;
  pdu_3 = completion_pdu m;
  pdu_4 = acknowledgement_pdu m;
  alice_1 = alice_waiting m;
  alice_2 = alice_confirming m;
  alice_3 = alice_established m;
  bob_1 = bob_waiting m;
  bob_2 = bob_established m;
  initiated = initiate_lem m;
  sent_1 = refl;
  answered = request_delivered m;
  sent_2 = refl;
  completed = response_delivered m;
  sent_3 = refl;
  accepted = completion_delivered m;
  sent_4 = refl;
  confirmed = acknowledgement_delivered m;
  established_a = refl;
  established_b = refl;
  keys = shared_keys m;
  keys_a = refl;
  keys_b = refl;
  cid_a = refl;
  cid_b = refl;
  delivered_to_b = refl;
  delivered_to_a = refl;
  in_step_a2b = refl;
  in_step_b2a = refl;
}
