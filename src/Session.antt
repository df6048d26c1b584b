-- ===== src/Session.antt =====
-- src/kem_make/session.py: the life of a `Session`. Time is an argument of each call, in whole
-- ticks; the queue methods and the crank are functions on the record of `Session.State`.
pub mod Backend
pub mod State
pub mod Answers
pub mod Handlers
pub mod Laws
pub mod Handshake
pub mod Outcomes
pub mod Retries
pub mod Traffic
pub mod Nonces
mod Tests
use kem_make.Base.{
  ℕ, ◌+◌, String, Bytes, Bool, true, false, not, ◌&&◌, Option, none, some, List, [], ◌∷◌, ◌++◌,
  ◌==◌, nat_eq, bytes_eq, string_eq, if◌then◌else◌, leb,
}
use kem_make.Base.Dict.{is_some}
use kem_make.Errors.{
  Error, Result, ok, err, or_raise, is_value_error, value_error, index_error, session_error,
  unexpected_pdu, key_lookup_error,
}
use kem_make.Wire.Messages.{
  KeyId, KemPublicKey, MakePayload, MakeMessage, session_init_request, session_init_response,
  session_completion_request, session_completion_response, message,
}
use kem_make.Wire.{build_aead_list, build_message, dump_message, load_message}
use Backend.{Env, KeyLookup, Coins, PrivateKey, generate_ephemeral, encapsulate}
use State.{
  Role, initiator, responder, SessionState, initial, expect_session_init_response,
  expect_session_completion_request, expect_session_completion_response, established, dropped,
  state_eq, UpdateResult, nothing_ready, pdu_ready, payload_ready, session_dropped, Deadline, at,
  never, Session, new_session, Action, pure, raise, lift, gets, modify, ◌>>=◌, ◌>>◌, used,
  append_pdu, resend,
}
use Answers.{copy_ephemeral}
use Handlers.{
  handle_session_init_request, handle_session_completion_request, handle_session_init_response,
  handle_session_completion_response, send_established_payload, handle_established_message,
}

unfoldable pub post_pdu : Bytes → Session → Session
post_pdu der s = record s { incoming_queue = s.incoming_queue ++ der ∷ [] }

unfoldable pub post_payload : Bytes → Action (Unit {0})
post_payload [] s = (err value_error, s)
post_payload (b ∷ bs) s = (ok tt, record s { pending_payload = some (b ∷ bs) })

abbrev pub is_nonempty : List Bytes → Bool
is_nonempty [] = false
is_nonempty (x ∷ xs) = true

unfoldable pub poll_pdu : Session → Bool
poll_pdu s = is_nonempty s.outgoing_pdus

unfoldable pub poll_payload : Session → Bool
poll_payload s = is_nonempty s.outgoing_payloads

-- `pop(0)`
unfoldable pub get_pdu : Action Bytes
get_pdu s = elim s.outgoing_pdus [
  | [] ↦ (err index_error, s)
  | pdu ∷ rest ↦ (ok pdu, record s { outgoing_pdus = rest })
]

unfoldable pub get_payload : Action Bytes
get_payload s = elim s.outgoing_payloads [
  | [] ↦ (err index_error, s)
  | payload ∷ rest ↦ (ok payload, record s { outgoing_payloads = rest })
]

abbrev pub get_last_sent : Session → Option Bytes
get_last_sent s = s.last_sent

abbrev pub get_last_received : Session → Option Bytes
get_last_received s = s.last_received

-- `_key_id_equal`
unfoldable key_id_equal : KeyId → KeyId → Bool
key_id_equal a b =
    a.hash_algorithm.algorithm == b.hash_algorithm.algorithm && a.key_hash == b.key_hash

unfoldable pub reset : Session → Session
unfolding new_session
reset s = new_session s.role s.own_key_id s.config

-- The guards of `initiate` and `fork`.
unfoldable pub require_initiator : SessionState → Session → Result (Unit {0})
require_initiator wanted s = elim s.role [
  | responder ↦ err session_error
  | initiator ↦ if s.state == wanted then ok tt else err session_error
]

-- the `twin` of `fork`, with its own copy of the private key
unfoldable pub twin_of : PrivateKey → Session → Session
unfolding new_session
twin_of ephemeral s = record (new_session s.role s.own_key_id s.config) {
  state = expect_session_init_response;
  cid = s.cid;
  peer_key_id = s.peer_key_id;
  own_ephemeral_private = some ephemeral;
  own_ephemeral_public = s.own_ephemeral_public;
  s1 = s.s1;
  last_sent = s.last_sent;
  attempt_count = s.attempt_count;
  deadline = s.deadline;
  pending_payload = s.pending_payload;
}

unfoldable pub next_update_result : Bool → Bool → Deadline → UpdateResult × Deadline
next_update_result payload_queued pdu_queued next =
    if payload_queued
    then (payload_ready, next)
    else if pdu_queued
    then (pdu_ready, next)
    else (nothing_ready, next)

-- `_on_timeout`
unfoldable pub on_timeout : ℕ → Session → Session
on_timeout now s = elim s.role [
  | responder ↦ record s { state = dropped }
  | initiator ↦
      if leb s.config.max_retries s.attempt_count
      then record s { state = dropped }
      else resend (record s {
        attempt_count = s.attempt_count + 1;
        deadline = some (now + s.config.retry_interval_seconds);
      })
]

-- whether the deadline has passed in a state that waits
unfoldable pub is_due : ℕ → Session → Bool
is_due now s = elim s.deadline [
  | none ↦ false
  | some deadline ↦ leb deadline now && not (s.state == established) && not (s.state == initial)
]

-- `self.cid != incoming_cid`
abbrev pub is_own_cid : Session → Bytes → Bool
is_own_cid s cid = elim s.cid [ none ↦ false | some own ↦ cid == own ]

module _ (env : Env) (keys : KeyLookup) where
  -- `initiate`; an own key id of `None` is refused by the encoder
  unfoldable pub initiate : Coins → KeyId → ℕ → Action (Unit {0})
  initiate coins peer_key_id now = do
    λ s. lift (require_initiator initial s) s
    modify (λ s. record s { cid = some coins.uuid; peer_key_id = some peer_key_id })
    peer_static_public ← lift (or_raise (keys.get_public_key peer_key_id) key_lookup_error)
    level ← gets (λ s. s.config.kem_level)
    (own_private, own_public) ← lift (generate_ephemeral env.backend level coins.seed)
    modify (λ s. record s {
      own_ephemeral_private = some own_private;
      own_ephemeral_public = some own_public;
    })
    (s1, ct1) ← lift (encapsulate env.backend peer_static_public coins.first)
    modify (λ s. record s { s1 = some s1 })
    own_key_id ← λ s. lift (used s.own_key_id) s
    aeads ← λ s. lift (build_aead_list env.asn1 s.config.acceptable_aeads) s
    msg ← lift (
        build_message coins.uuid (
          session_init_request (record {
            ct1 = ct1;
            key_id_b = peer_key_id;
            pk_a_star = own_public;
            key_id_a = own_key_id;
            acceptable_aeads = aeads;
          })))
    der ← lift (dump_message env.asn1 msg)
    modify (λ s. record s {
      last_sent = some der;
      attempt_count = 0;
      deadline = some (now + s.config.retry_interval_seconds);
      state = expect_session_init_response;
      outgoing_pdus = s.outgoing_pdus ++ der ∷ [];
    })

  -- `fork`, which leaves the session itself as it is
  unfoldable pub fork : Session → Result Session
  fork s = elim (require_initiator expect_session_init_response s) [
    | err e ↦ err e
    | ok _ ↦ elim (copy_ephemeral env keys s) [ err e ↦ err e | ok own ↦ ok (twin_of own s) ]
  ]

  -- the part of `_process_incoming` behind the check of the cid
  unfoldable pub dispatch :
      Coins → Role → SessionState → MakePayload → Bytes → ℕ → Action (Unit {0})
  dispatch coins initiator expect_session_init_response (session_init_response resp) der now =
      handle_session_init_response env keys coins resp der now
  dispatch coins responder expect_session_completion_request (session_completion_request req) der
        now =
      handle_session_completion_request env keys req der now
  dispatch coins initiator expect_session_completion_response (session_completion_response resp) der
        now =
      handle_session_completion_response env keys resp der now
  dispatch coins initiator established (message m) der now = handle_established_message env keys m
  dispatch coins responder established (message m) der now = handle_established_message env keys m
  dispatch coins _ _ _ der now = raise unexpected_pdu

  -- a responder's first message: anything but a request is ignored
  unfoldable pub accept_first : Coins → MakeMessage → MakePayload → Bytes → ℕ → Action (Unit {0})
  accept_first coins msg (session_init_request req) der now = do
    modify (λ s. record s { cid = some msg.cid })
    handle_session_init_request env keys coins req der now
  accept_first coins msg _ der now = pure tt

  abbrev pub is_fresh_responder : Session → Bool
  is_fresh_responder s = elim s.role [ initiator ↦ false | responder ↦ s.state == initial ]

  -- what is done with a message that has been read
  unfoldable pub process_message : Coins → MakeMessage → Bytes → ℕ → Action (Unit {0})
  process_message coins msg der now s =
      if is_fresh_responder s
      then accept_first coins msg msg.payload der now s
      else if is_own_cid s msg.cid
      then dispatch coins s.role s.state msg.payload der now s
      else (ok tt, s)

  -- the result of reading: a ValueError drops the PDU
  unfoldable pub process_loaded : Coins → Result MakeMessage → Bytes → ℕ → Action (Unit {0})
  process_loaded coins (ok msg) der now s = process_message coins msg der now s
  process_loaded coins (err e) der now s = if is_value_error e then (ok tt, s) else (err e, s)

  abbrev pub is_duplicate : Session → Bytes → Bool
  is_duplicate s der = elim s.last_received [ none ↦ false | some last ↦ der == last ]

  -- `_process_incoming`
  unfoldable pub process_incoming : Coins → Bytes → ℕ → Action (Unit {0})
  process_incoming coins der now s =
      if is_duplicate s der
      then (ok tt, resend s)
      else process_loaded coins (load_message env.asn1 der) der now s

  -- the first step of `update`: at most one PDU of the queue
  unfoldable pub process_queued : Coins → ℕ → Action (Unit {0})
  process_queued coins now s = elim s.incoming_queue [
    | [] ↦ (ok tt, s)
    | der ∷ rest ↦ process_incoming coins der now (record s { incoming_queue = rest })
  ]

  -- the second: a payload that waits, once the session is established
  unfoldable pub send_pending : Action (Unit {0})
  send_pending s = elim s.pending_payload [
    | none ↦ (ok tt, s)
    | some payload ↦
        if s.state == established then send_established_payload env keys payload s else (ok tt, s)
  ]

  abbrev pub next_deadline : ℕ → Session → Deadline
  next_deadline now s = elim s.deadline [
    | none ↦ at (now + s.config.retry_interval_seconds)
    | some deadline ↦ at deadline
  ]

  abbrev pub report : ℕ → Session → UpdateResult × Deadline
  report now s =
      if s.state == dropped
      then (session_dropped, never)
      else next_update_result (poll_payload s) (poll_pdu s) (next_deadline now s)

  -- the rest: the deadline, and the report
  unfoldable pub settle : ℕ → Action (UpdateResult × Deadline)
  settle now s =
      if s.state == dropped
      then (ok (session_dropped, never), s)
      else let t = if is_due now s then on_timeout now s else s in (ok (report now t), t)

  unfoldable pub update : Coins → ℕ → Action (UpdateResult × Deadline)
  update coins now s =
      if s.state == dropped
      then (ok (session_dropped, never), s)
      else (do process_queued coins now; send_pending; settle now) s
