-- ===== src/Dispatcher/Promotion.antt =====
-- Established and pending sessions under the correlation id of an incoming PDU.
use kem_make.Base.{
  ℕ, Bytes, ◌≡◌, Option, none, some, List, [], ◌⊎◌, ◌∙◌, arith, Option-cases, inl, inr,
}
use kem_make.Base.Dict.{or_else, get, set, get-erase}
use kem_make.Errors.{Error, Result, ok, err, candidate_limit_exceeded, Result-cases}
use kem_make.Wire.Messages.{MakePayload, session_init_request, session_init_response}
use kem_make.Candidates.{HandshakeCandidate, CandidateStore, add}
use kem_make.Session.Backend.{Env, KeyLookup, Coins}
use kem_make.Session.State.{Session, responder, new_session}
use kem_make.Session.{fork}
use kem_make.Dispatcher.State.{
  Dispatcher, drain, drained, note_first, promote, drop_responder, reap, reap_responder,
}
use kem_make.Dispatcher.Routing.{
  find_fork, unless_limited, deliver, deliver_established, deliver_responder, settle_responder,
  open_responder, route_session_init_request, redeliver, open_fork, respond_to_template,
  route_session_init_response, try_forks, finish_forks, route_to_forks, route_other, route_pending,
}
use kem_make.Dispatcher.Isolation.{Holds}

-- Nothing is pending under a correlation id.
pub record IsIdle (cid : Bytes) (d : Dispatcher) : Type 0 where
  pub responder : get cid d.responder_sessions ≡ none
  pub template : get cid d.initiator_templates ≡ none
  pub forks : get cid d.initiator_forks ≡ none

-- No session is established under it, or nothing else is there.
abbrev pub Exclusive : Bytes → Dispatcher → Type 0
Exclusive cid d = (get cid d.established_sessions ≡ none) ⊎ IsIdle cid d

-- No session is established under it.
abbrev pub Unproven : Bytes → Dispatcher → Type 0
Unproven cid d = get cid d.established_sessions ≡ none

pub Holds-Exclusive : (j : Bytes) (d e : Dispatcher) → Holds j d e → Exclusive j d → Exclusive j e
Holds-Exclusive j d e h (inl absent) = inl (h.established ∙ absent)
Holds-Exclusive j d e h (inr idle) = inr (record {
  responder = h.responder ∙ idle.responder;
  template = h.template ∙ idle.template;
  forks = h.forks ∙ idle.forks;
})

module _ (cid : Bytes) where
  pub promote-IsIdle : (winner : Session) (d : Dispatcher) → IsIdle cid (promote cid winner d)
  unfolding promote
  promote-IsIdle winner d = ground (
    arith,
    get-erase cid cid d.responder_sessions,
    get-erase cid cid d.initiator_templates,
    get-erase cid cid d.initiator_forks,
  )

  reap-Exclusive : (s : Session) (d : Dispatcher) → Unproven cid d → Exclusive cid (reap cid s d)
  unfolding reap drop_responder
  reap-Exclusive s d h = ground (arith, promote-IsIdle (drained s) (drain cid s d))

  reap_responder-Exclusive :
      (d : Dispatcher) → Unproven cid d → Exclusive cid (reap_responder cid d)
  unfolding reap_responder
  reap_responder-Exclusive d h = elim (Option-cases (get cid d.responder_sessions)) [
    | inl absent ↦ ground arith
    | inr (s, found) ↦ ground (arith, reap-Exclusive s d h)
  ]

  settle_responder-Exclusive :
      (s : Session) (d : Dispatcher) → Unproven cid d → Exclusive cid (settle_responder s cid d)
  unfolding settle_responder drop_responder
  settle_responder-Exclusive s d h = ground (
    arith,
    reap_responder-Exclusive d h,
    reap_responder-Exclusive
        (record d { candidates = note_first cid (or_else s.last_sent []) d.candidates }) h,
  )

  finish_forks-Exclusive :
      (r : Result (Option Session)) (d : Dispatcher)
      → Unproven cid d
      → Exclusive cid (finish_forks cid r d).1
  unfolding finish_forks
  finish_forks-Exclusive (err x) d h = inl h
  finish_forks-Exclusive (ok none) d h = inl h
  finish_forks-Exclusive (ok (some w)) d h = inr (promote-IsIdle (drained w) (drain cid w d))

  unless_limited-Exclusive :
      (e : Error) (d : Dispatcher) → Unproven cid d → Exclusive cid (unless_limited e d).1
  unfolding unless_limited
  unless_limited-Exclusive candidate_limit_exceeded d h = inl h
  unless_limited-Exclusive _ d h = inl h

  module _ (env : Env) (keys : KeyLookup) (random : ℕ → Coins) (der : Bytes) (now : ℕ) where
    abbrev after : Session → Dispatcher → Session × Dispatcher
    after s d = (deliver env keys random s der now cid d).1

    deliver-Unproven : (s : Session) (d : Dispatcher) → Unproven cid d → Unproven cid (after s d).1
    unfolding deliver drain
    deliver-Unproven s d h = ground arith

    -- an established session stays the only one
    pub deliver_established-Exclusive :
        (s : Session) (d : Dispatcher)
        → IsIdle cid d
        → Exclusive cid (deliver_established env keys random s der now cid d).1
    unfolding deliver_established deliver drain
    deliver_established-Exclusive s d idle = inr (ground arith)

    abbrev kept_responder : Session × Dispatcher → Dispatcher
    kept_responder (t, e) = record e { responder_sessions = set cid t e.responder_sessions }

    deliver_responder-Exclusive :
        (s : Session) (d : Dispatcher)
        → Unproven cid d
        → Exclusive cid (deliver_responder env keys random s der now cid d).1
    unfolding deliver_responder
    deliver_responder-Exclusive s d h = ground (
      arith,
      deliver-Unproven s d h,
      reap_responder-Exclusive (kept_responder (after s d)) (deliver-Unproven s d h),
    )

    open_responder-Exclusive :
        (d : Dispatcher)
        → Unproven cid d
        → Exclusive cid (open_responder env keys random der now cid d).1
    unfolding open_responder
    open_responder-Exclusive d h =
        let fresh = new_session responder none d.config in
        ground (
          arith,
          deliver-Unproven fresh d h,
          settle_responder-Exclusive (after fresh d).0 (kept_responder (after fresh d))
              (deliver-Unproven fresh d h),
        )

    abbrev admitted : Dispatcher → Result HandshakeCandidate × CandidateStore
    admitted d = add cid der [] now d.candidates

    route_session_init_request-Exclusive :
        (d : Dispatcher)
        → Unproven cid d
        → Exclusive cid (route_session_init_request env keys random cid der now d).1
    unfolding route_session_init_request
    route_session_init_request-Exclusive d h = elim (Option-cases (get cid d.responder_sessions)) [
      | inr (s, found) ↦ ground (arith, deliver_responder-Exclusive s d h)
      | inl absent ↦ elim (Result-cases (admitted d).0) [
        | inl (e, refused) ↦
            ground (arith, unless_limited-Exclusive e (record d { candidates = (admitted d).1 }) h)
        | inr (c, taken) ↦
            ground (arith, open_responder-Exclusive (record d { candidates = (admitted d).1 }) h)
      ]
    ]

    redeliver-Exclusive :
        (found : List Session × (Session × List Session)) (d : Dispatcher)
        → Unproven cid d
        → Exclusive cid (redeliver env keys random found der now cid d).1
    unfolding redeliver
    redeliver-Exclusive (before, (s, rest)) d h = inl (ground (arith, deliver-Unproven s d h))

    open_fork-Exclusive :
        (template : Session) (forks : List Session) (d : Dispatcher)
        → Unproven cid d
        → Exclusive cid (open_fork env keys random template forks der now cid d).1
    unfolding open_fork
    open_fork-Exclusive template forks d h = elim (Result-cases (fork env keys template)) [
      | inl (x, refused) ↦ inl (ground arith)
      | inr (s, made) ↦ inl (ground (arith, deliver-Unproven s d h))
    ]

    respond_to_template-Exclusive :
        (template : Session) (d : Dispatcher)
        → Unproven cid d
        → Exclusive cid (respond_to_template env keys random template cid der now d).1
    unfolding respond_to_template
    respond_to_template-Exclusive template d h =
        let forks = or_else (get cid d.initiator_forks) [] in
        elim (Option-cases (find_fork der forks)) [
          | inr (found, e) ↦ ground (arith, redeliver-Exclusive found d h)
          | inl absent ↦ elim (Result-cases (admitted d).0) [
            | inl (e, refused) ↦
                ground
                  (arith, unless_limited-Exclusive e (record d { candidates = (admitted d).1 }) h)
            | inr (c, taken) ↦ ground (
              arith,
              open_fork-Exclusive template forks (record d { candidates = (admitted d).1 }) h,
            )
          ]
        ]

    route_session_init_response-Exclusive :
        (d : Dispatcher)
        → Unproven cid d
        → Exclusive cid (route_session_init_response env keys random cid der now d).1
    unfolding route_session_init_response
    route_session_init_response-Exclusive d h =
        elim (Option-cases (get cid d.initiator_templates)) [
          | inl absent ↦ ground arith
          | inr (template, found) ↦ ground (arith, respond_to_template-Exclusive template d h)
        ]

    route_other-Exclusive :
        (d : Dispatcher)
        → Unproven cid d
        → Exclusive cid (route_other env keys random cid der now d).1
    unfolding route_other route_to_forks
    route_other-Exclusive d h = elim (Option-cases (get cid d.responder_sessions)) [
      | inr (s, found) ↦ ground (arith, deliver_responder-Exclusive s d h)
      | inl absent ↦ elim (Option-cases (get cid d.initiator_forks)) [
        | inl none_here ↦ ground arith
        | inr (forks, found) ↦
            let (winner, (others, n)) = try_forks env keys random der now forks d.drawn in
            ground (
              arith,
              finish_forks-Exclusive winner
                  (record d { initiator_forks = set cid others d.initiator_forks; drawn = n }) h,
            )
      ]
    ]

    pub route_pending-Exclusive :
        (payload : MakePayload) (d : Dispatcher)
        → Unproven cid d
        → Exclusive cid (route_pending env keys random payload cid der now d).1
    unfolding route_pending
    route_pending-Exclusive (session_init_request _) d h = route_session_init_request-Exclusive d h
    route_pending-Exclusive (session_init_response _) d h =
        route_session_init_response-Exclusive d h
    route_pending-Exclusive _ d h = route_other-Exclusive d h
