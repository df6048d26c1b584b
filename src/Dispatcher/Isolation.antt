-- ===== src/Dispatcher/Isolation.antt =====
-- What an incoming PDU does to the sessions of other correlation ids.
use kem_make.Base.{
  ℕ, Bytes, ◌≡◌, ◌≢◌, Option, none, some, List, [], ◌∷◌, ◌++◌, arith, Option-cases, inl, inr,
}
use kem_make.Base.Dict.{or_else, get, set, get-set, get-erase}
use kem_make.Errors.{Error, Result, ok, err, candidate_limit_exceeded, Result-cases}
use kem_make.Wire.Messages.{MakePayload, MakeMessage, session_init_request, session_init_response}
use kem_make.Wire.{correlation_id, load_message}
use kem_make.Candidates.{HandshakeCandidate, CandidateStore, add}
use kem_make.Session.Backend.{Env, KeyLookup, Coins}
use kem_make.Session.State.{Session, responder, new_session}
use kem_make.Session.{fork}
use kem_make.Dispatcher.State.{
  Dispatcher, drain, drained, note_first, promote, drop_responder, reap, reap_responder,
}
use kem_make.Dispatcher.Routing.{
  find_fork, unless_limited, deliver, deliver_established, deliver_responder, settle_responder,
  open_responder, route_session_init_request, redeliver, open_fork, respond_to_template,
  route_session_init_response, try_forks, finish_forks, route_to_forks, route_other, route_pending,
  route_message, route_loaded,
}
use kem_make.Dispatcher.{post_pdu}

-- What the dispatcher holds for a correlation id.
pub record Holds (cid : Bytes) (d e : Dispatcher) : Type 0 where
  pub established : get cid e.established_sessions ≡ get cid d.established_sessions
  pub responder : get cid e.responder_sessions ≡ get cid d.responder_sessions
  pub template : get cid e.initiator_templates ≡ get cid d.initiator_templates
  pub forks : get cid e.initiator_forks ≡ get cid d.initiator_forks

module _ (j cid : Bytes) (apart : cid ≢ j) where
  promote-Holds : (winner : Session) (d : Dispatcher) → Holds j d (promote cid winner d)
  unfolding promote
  promote-Holds winner d = ground (
    arith,
    get-set cid j winner d.established_sessions,
    get-erase cid j d.responder_sessions,
    get-erase cid j d.initiator_templates,
    get-erase cid j d.initiator_forks,
  )

  drop_responder-Holds : (d : Dispatcher) → Holds j d (drop_responder cid d)
  unfolding drop_responder
  drop_responder-Holds d = ground (arith, get-erase cid j d.responder_sessions)

  reap-Holds : (s : Session) (d : Dispatcher) → Holds j d (reap cid s d)
  unfolding reap drain
  reap-Holds s d = ground (arith, promote-Holds (drained s) (drain cid s d), drop_responder-Holds d)

  reap_responder-Holds : (d : Dispatcher) → Holds j d (reap_responder cid d)
  unfolding reap_responder
  reap_responder-Holds d = elim (Option-cases (get cid d.responder_sessions)) [
    | inl absent ↦ ground arith
    | inr (s, found) ↦ ground (arith, reap-Holds s d)
  ]

  settle_responder-Holds : (s : Session) (d : Dispatcher) → Holds j d (settle_responder s cid d)
  unfolding settle_responder
  settle_responder-Holds s d = ground (
    arith,
    drop_responder-Holds d,
    reap_responder-Holds d,
    reap_responder-Holds
        (record d { candidates = note_first cid (or_else s.last_sent []) d.candidates }),
  )

  finish_forks-Holds :
      (r : Result (Option Session)) (d : Dispatcher) → Holds j d (finish_forks cid r d).1
  unfolding finish_forks drain
  finish_forks-Holds (err x) d = ground arith
  finish_forks-Holds (ok none) d = ground arith
  finish_forks-Holds (ok (some w)) d = ground (arith, promote-Holds (drained w) (drain cid w d))

  unless_limited-Holds : (e : Error) (d : Dispatcher) → Holds j d (unless_limited e d).1
  unfolding unless_limited
  unless_limited-Holds candidate_limit_exceeded d = ground arith
  unless_limited-Holds _ d = ground arith

  set_established-Holds :
      (s : Session) (d : Dispatcher)
      → Holds j d (record d { established_sessions = set cid s d.established_sessions })
  set_established-Holds s d = ground (arith, get-set cid j s d.established_sessions)

  set_responder-Holds :
      (s : Session) (d : Dispatcher)
      → Holds j d (record d { responder_sessions = set cid s d.responder_sessions })
  set_responder-Holds s d = ground (arith, get-set cid j s d.responder_sessions)

  set_forks-Holds :
      (forks : List Session) (k : ℕ) (d : Dispatcher)
      → Holds j d (record d { initiator_forks = set cid forks d.initiator_forks; drawn = k })
  set_forks-Holds forks k d = ground (arith, get-set cid j forks d.initiator_forks)

  module _ (env : Env) (keys : KeyLookup) (random : ℕ → Coins) (der : Bytes) (now : ℕ) where
    abbrev after : Session → Dispatcher → Session × Dispatcher
    after s d = (deliver env keys random s der now cid d).1

    deliver-Holds : (s : Session) (d : Dispatcher) → Holds j d (after s d).1
    unfolding deliver drain
    deliver-Holds s d = ground arith

    deliver_established-Holds :
        (s : Session) (d : Dispatcher)
        → Holds j d (deliver_established env keys random s der now cid d).1
    unfolding deliver_established
    deliver_established-Holds s d =
        ground (arith, deliver-Holds s d, set_established-Holds (after s d).0 (after s d).1)

    abbrev kept_responder : Session × Dispatcher → Dispatcher
    kept_responder (t, e) = record e { responder_sessions = set cid t e.responder_sessions }

    deliver_responder-Holds :
        (s : Session) (d : Dispatcher)
        → Holds j d (deliver_responder env keys random s der now cid d).1
    unfolding deliver_responder
    deliver_responder-Holds s d = ground (
      arith,
      deliver-Holds s d,
      set_responder-Holds (after s d).0 (after s d).1,
      reap_responder-Holds (kept_responder (after s d)),
    )

    open_responder-Holds :
        (d : Dispatcher) → Holds j d (open_responder env keys random der now cid d).1
    unfolding open_responder
    open_responder-Holds d =
        let fresh = new_session responder none d.config in
        ground (
          arith,
          deliver-Holds fresh d,
          set_responder-Holds (after fresh d).0 (after fresh d).1,
          settle_responder-Holds (after fresh d).0 (kept_responder (after fresh d)),
        )

    abbrev admitted : Dispatcher → Result HandshakeCandidate × CandidateStore
    admitted d = add cid der [] now d.candidates

    route_session_init_request-Holds :
        (d : Dispatcher) → Holds j d (route_session_init_request env keys random cid der now d).1
    unfolding route_session_init_request
    route_session_init_request-Holds d = elim (Option-cases (get cid d.responder_sessions)) [
      | inr (s, found) ↦ ground (arith, deliver_responder-Holds s d)
      | inl absent ↦ elim (Result-cases (admitted d).0) [
        | inl (e, refused) ↦
            ground (arith, unless_limited-Holds e (record d { candidates = (admitted d).1 }))
        | inr (c, taken) ↦
            ground (arith, open_responder-Holds (record d { candidates = (admitted d).1 }))
      ]
    ]

    redeliver-Holds :
        (found : List Session × (Session × List Session)) (d : Dispatcher)
        → Holds j d (redeliver env keys random found der now cid d).1
    unfolding redeliver
    redeliver-Holds (before, (s, rest)) d =
        let (t, e) = after s d in
        ground (arith, deliver-Holds s d, set_forks-Holds (before ++ t ∷ rest) e.drawn e)

    open_fork-Holds :
        (template : Session) (forks : List Session) (d : Dispatcher)
        → Holds j d (open_fork env keys random template forks der now cid d).1
    unfolding open_fork
    open_fork-Holds template forks d = elim (Result-cases (fork env keys template)) [
      | inl (x, refused) ↦ ground arith
      | inr (s, made) ↦
          let (t, e) = after s d in
          ground (arith, deliver-Holds s d, set_forks-Holds (forks ++ t ∷ []) e.drawn e)
    ]

    respond_to_template-Holds :
        (template : Session) (d : Dispatcher)
        → Holds j d (respond_to_template env keys random template cid der now d).1
    unfolding respond_to_template
    respond_to_template-Holds template d =
        let forks = or_else (get cid d.initiator_forks) [] in
        elim (Option-cases (find_fork der forks)) [
          | inr (found, e) ↦ ground (arith, redeliver-Holds found d)
          | inl absent ↦ elim (Result-cases (admitted d).0) [
            | inl (e, refused) ↦
                ground (arith, unless_limited-Holds e (record d { candidates = (admitted d).1 }))
            | inr (c, taken) ↦
                ground
                  (arith, open_fork-Holds template forks (record d { candidates = (admitted d).1 }))
          ]
        ]

    route_session_init_response-Holds :
        (d : Dispatcher) → Holds j d (route_session_init_response env keys random cid der now d).1
    unfolding route_session_init_response
    route_session_init_response-Holds d = elim (Option-cases (get cid d.initiator_templates)) [
      | inl absent ↦ ground arith
      | inr (template, found) ↦ ground (arith, respond_to_template-Holds template d)
    ]

    route_to_forks-Holds :
        (forks : List Session) (d : Dispatcher)
        → Holds j d (route_to_forks env keys random forks cid der now d).1
    unfolding route_to_forks
    route_to_forks-Holds forks d =
        let (winner, (others, n)) = try_forks env keys random der now forks d.drawn in
        ground (
          arith,
          set_forks-Holds others n d,
          finish_forks-Holds winner
              (record d { initiator_forks = set cid others d.initiator_forks; drawn = n }),
        )

    route_other-Holds : (d : Dispatcher) → Holds j d (route_other env keys random cid der now d).1
    unfolding route_other
    route_other-Holds d = elim (Option-cases (get cid d.responder_sessions)) [
      | inr (s, found) ↦ ground (arith, deliver_responder-Holds s d)
      | inl absent ↦ elim (Option-cases (get cid d.initiator_forks)) [
        | inl none_here ↦ ground arith
        | inr (forks, found) ↦ ground (arith, route_to_forks-Holds forks d)
      ]
    ]

    route_pending-Holds :
        (payload : MakePayload) (d : Dispatcher)
        → Holds j d (route_pending env keys random payload cid der now d).1
    unfolding route_pending
    route_pending-Holds (session_init_request _) d = route_session_init_request-Holds d
    route_pending-Holds (session_init_response _) d = route_session_init_response-Holds d
    route_pending-Holds _ d = route_other-Holds d

module _ (env : Env) (keys : KeyLookup) (random : ℕ → Coins) where
  route_message-Holds :
      (msg : MakeMessage) (der : Bytes) (now : ℕ) (j : Bytes) (d : Dispatcher)
      → correlation_id msg ≢ j
      → Holds j d (route_message env keys random msg der now d).1
  unfolding route_message
  route_message-Holds msg der now j d apart =
      elim (Option-cases (get msg.cid d.established_sessions)) [
        | inl absent ↦
            ground
              (arith, route_pending-Holds j msg.cid apart env keys random der now msg.payload d)
        | inr (s, found) ↦
            ground (arith, deliver_established-Holds j msg.cid apart env keys random der now s d)
      ]

  -- Whatever bytes arrive, and whether or not the call raises: the established session, the
  -- responder session, the template and the forks of every correlation id other than the one that
  -- the bytes carry stay as they were; bytes that do not load change those of no correlation id.
  pub post_pdu-Holds :
      (der : Bytes) (now : ℕ) (j : Bytes) (d : Dispatcher)
      → ((msg : MakeMessage) → load_message env.asn1 der ≡ ok msg → correlation_id msg ≢ j)
      → Holds j d (post_pdu env keys random der now d).1
  unfolding post_pdu route_loaded
  post_pdu-Holds der now j d apart = elim (Result-cases (load_message env.asn1 der)) [
    | inl (e, refused) ↦ ground arith
    | inr (msg, loaded) ↦ ground (arith, route_message-Holds msg der now j d (apart msg loaded))
  ]
