-- ===== src/Session/Outcomes.antt =====
-- What one incoming PDU does to a session, over all states, payloads and failures.
use kem_make.Base.{ℕ, Bytes, ◌≡◌, refl, ◌⊎◌, none, some, List, [], ◌∷◌, ◌++◌, arith}
use kem_make.Errors.{Result, ok, err, Result-cases}
use kem_make.Wire.Messages.{
  MakePayload, MakeMessage, SessionInitRequest, SessionInitResponse, SessionCompletionRequest,
  SessionCompletionResponse, Message, session_init_request, session_init_response,
  session_completion_request, session_completion_response, message,
}
use kem_make.Wire.{load_message}
use kem_make.Session.Backend.{Env, KeyLookup, Coins}
use kem_make.Session.State.{
  Role, initiator, responder, SessionState, initial, expect_session_init_response,
  expect_session_completion_request, expect_session_completion_response, established, Session,
}
use kem_make.Session.Answers.{answer_init_request}
use kem_make.Session.Handlers.{
  handle_session_init_request, seal_pending_reply, handle_session_completion_request,
  handle_session_init_response, open_reply, handle_session_completion_response,
  handle_established_message,
}
use kem_make.Session.{dispatch, accept_first, process_message, process_loaded, process_incoming}

-- The linear path of each role through the states.
abbrev pub next_state : Role → SessionState → SessionState
next_state responder initial = expect_session_completion_request
next_state responder expect_session_completion_request = established
next_state initiator expect_session_init_response = expect_session_completion_response
next_state initiator expect_session_completion_response = established
next_state _ state = state

-- What a failure leaves alone.
pub record Steady (s t : Session) : Type 0 where
  pub role : t.role ≡ s.role
  pub config : t.config ≡ s.config
  pub state : t.state ≡ s.state
  pub outgoing_pdus : t.outgoing_pdus ≡ s.outgoing_pdus
  pub last_received : t.last_received ≡ s.last_received
  pub last_sent : t.last_sent ≡ s.last_sent
  pub attempt_count : t.attempt_count ≡ s.attempt_count
  pub deadline : t.deadline ≡ s.deadline
  pub session_keys : t.session_keys ≡ s.session_keys

-- The PDU that a session keeps for resending.
abbrev pub kept : Session → List Bytes
kept s = elim s.last_sent [ none ↦ [] | some pdu ↦ pdu ∷ [] ]

-- What a success may do: at most one edge, and at most one PDU more to send.
pub record Advances (s t : Session) : Type 0 where
  pub role : t.role ≡ s.role
  pub config : t.config ≡ s.config
  pub moved : (t.state ≡ s.state) ⊎ (t.state ≡ next_state s.role s.state)
  pub sent : (t.outgoing_pdus ≡ s.outgoing_pdus) ⊎ (t.outgoing_pdus ≡ s.outgoing_pdus ++ kept t)

abbrev pub Outcome : Session → Result (Unit {0}) × Session → Type 0
Outcome s (err e, t) = Steady s t
Outcome s (ok _, t) = Advances s t

module _ (env : Env) (keys : KeyLookup) (now : ℕ) (s : Session) where
  init_request-Outcome :
      (coins : Coins) (req : SessionInitRequest) (der : Bytes)
      → s.role ≡ responder
      → s.state ≡ initial
      → Outcome s (handle_session_init_request env keys coins req der now s)
  unfolding handle_session_init_request
  init_request-Outcome coins req der r st =
      ground (arith, Result-cases (answer_init_request env keys s coins req))

  completion_request-Outcome :
      (req : SessionCompletionRequest) (der : Bytes)
      → s.role ≡ responder
      → s.state ≡ expect_session_completion_request
      → Outcome s (handle_session_completion_request env keys req der now s)
  unfolding handle_session_completion_request seal_pending_reply
  completion_request-Outcome req der r st = ground arith

  init_response-Outcome :
      (coins : Coins) (resp : SessionInitResponse) (der : Bytes)
      → s.role ≡ initiator
      → s.state ≡ expect_session_init_response
      → Outcome s (handle_session_init_response env keys coins resp der now s)
  unfolding handle_session_init_response
  init_response-Outcome coins resp der r st = ground arith

  completion_response-Outcome :
      (resp : SessionCompletionResponse) (der : Bytes)
      → s.role ≡ initiator
      → s.state ≡ expect_session_completion_response
      → Outcome s (handle_session_completion_response env keys resp der now s)
  unfolding handle_session_completion_response open_reply
  completion_response-Outcome resp der r st = ground arith

  established_message-Outcome : (m : Message) → Outcome s (handle_established_message env keys m s)
  unfolding handle_established_message
  established_message-Outcome m = ground arith

module _ (env : Env) (keys : KeyLookup) (coins : Coins) (now : ℕ) where
  dispatch-Outcome :
      (role : Role) (state : SessionState) (payload : MakePayload) (der : Bytes) (s : Session)
      → s.role ≡ role
      → s.state ≡ state
      → Outcome s (dispatch env keys coins role state payload der now s)
  unfolding dispatch
  dispatch-Outcome initiator expect_session_init_response (session_init_response resp) der s r st =
      init_response-Outcome env keys now s coins resp der r st
  dispatch-Outcome responder expect_session_completion_request (session_completion_request req) der
        s r st =
      completion_request-Outcome env keys now s req der r st
  dispatch-Outcome initiator expect_session_completion_response (session_completion_response resp)
        der s r st =
      completion_response-Outcome env keys now s resp der r st
  dispatch-Outcome initiator established (message m) der s r st =
      established_message-Outcome env keys now s m
  dispatch-Outcome responder established (message m) der s r st =
      established_message-Outcome env keys now s m
  dispatch-Outcome _ _ _ der s r st = ground arith

  accept_first-Outcome :
      (msg : MakeMessage) (payload : MakePayload) (der : Bytes) (s : Session)
      → s.role ≡ responder
      → s.state ≡ initial
      → Outcome s (accept_first env keys coins msg payload der now s)
  unfolding accept_first
  accept_first-Outcome msg (session_init_request req) der s r st = ground (
    arith,
    init_request-Outcome env keys now (record s { cid = some msg.cid }) coins req der r st,
  )
  accept_first-Outcome msg _ der s r st = ground arith

  process_message-Outcome :
      (msg : MakeMessage) (der : Bytes) (s : Session)
      → Outcome s (process_message env keys coins msg der now s)
  unfolding process_message
  process_message-Outcome msg der s = ground (
    arith,
    accept_first-Outcome msg msg.payload der s,
    dispatch-Outcome s.role s.state msg.payload der s refl refl,
  )

  process_loaded-Outcome :
      (r : Result MakeMessage) (der : Bytes) (s : Session)
      → Outcome s (process_loaded env keys coins r der now s)
  unfolding process_loaded
  process_loaded-Outcome (ok msg) der s = process_message-Outcome msg der s
  process_loaded-Outcome (err e) der s = ground arith

  -- Whatever arrives: a call that raises leaves the state, the deadline, the retries, the keys and
  -- the PDUs to send as they were; one that returns stays in its state or takes the one step of its
  -- role, and queues nothing or exactly the PDU that it keeps for resending.
  pub process_incoming-Outcome :
      (der : Bytes) (s : Session) → Outcome s (process_incoming env keys coins der now s)
  unfolding process_incoming
  process_incoming-Outcome der s =
      ground (arith, process_loaded-Outcome (load_message env.asn1 der) der s)
