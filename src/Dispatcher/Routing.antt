-- ===== src/Dispatcher/Routing.antt =====
-- src/kem_make/dispatcher.py: where an incoming PDU goes. Each call gives back its result and the
-- dispatcher, which keeps what was written before a raise. `random` is the randomness of the
-- sessions' calls, in the order in which they are made.
use kem_make.Base.{
  ℕ, ◌+◌, Bytes, Bool, false, Option, none, some, List, [], ◌∷◌, ◌++◌, ◌==◌, bytes_eq,
  if◌then◌else◌,
}
use kem_make.Base.Dict.{get, set, or_else}
use kem_make.Errors.{Error, Result, ok, err, is_value_error, candidate_limit_exceeded}
use kem_make.Wire.Messages.{
  MakePayload, MakeMessage, session_init_request, session_init_response, session_completion_request,
  session_completion_response, message,
}
use kem_make.Wire.{correlation_id}
use kem_make.Candidates.{add}
use kem_make.Session.Backend.{Env, KeyLookup, Coins}
use kem_make.Session.State.{
  Session, responder, initial, expect_session_completion_request, established, state_eq,
  new_session,
}
use kem_make.Session.{get_last_sent, get_last_received, fork, update, post_pdu}
use kem_make.Dispatcher.State.{
  Dispatcher, catch, drain, drained, promote, drop_responder, reap_responder, note_first, note_sent,
}

-- A method call on the dispatcher.
abbrev pub Call : Type 0 → Type 0
Call A = Dispatcher → Result A × Dispatcher

-- The first fork that has received exactly these bytes, with the forks before and after it.
unfoldable pub find_fork : Bytes → List Session → Option (List Session × (Session × List Session))
find_fork der [] = none
find_fork der (s ∷ rest) =
    let later = find_fork der rest in
    if is_last der s
    then some ([], (s, rest))
    else elim later [ none ↦ none | some found ↦ some (s ∷ found.0, found.1) ]
  where
    is_last : Bytes → Session → Bool
    is_last der s = elim (get_last_received s) [ none ↦ false | some last ↦ last == der ]

-- `except CandidateLimitExceeded: return`
unfoldable pub unless_limited : Error → Call (Unit {0})
unless_limited candidate_limit_exceeded d = (ok tt, d)
unless_limited e d = (err e, d)

-- what is left of `_route_session_init_request` after the delivery
unfoldable pub settle_responder : Session → Bytes → Dispatcher → Dispatcher
settle_responder s cid d =
    if s.state == initial
    then drop_responder cid d
    else if s.state == expect_session_completion_request
    then reap_responder cid
        (record d { candidates = note_first cid (or_else (get_last_sent s) []) d.candidates })
    else reap_responder cid d

-- what `_route_to_forks` does with the fork that won
unfoldable pub finish_forks : Bytes → Result (Option Session) → Call (Unit {0})
finish_forks cid (err x) d = (err x, d)
finish_forks cid (ok none) d = (ok tt, d)
finish_forks cid (ok (some winner)) d = (ok tt, promote cid (drained winner) (drain cid winner d))

module _ (env : Env) (keys : KeyLookup) (random : ℕ → Coins) where
  -- `_deliver`, with the session as it comes out of it
  unfoldable pub deliver :
      Session → Bytes → ℕ → Bytes → Dispatcher → Result (Unit {0}) × (Session × Dispatcher)
  deliver s der now cid d =
      let (r, t) = update env keys (random d.drawn) now (post_pdu der s) in
      let e = record d { drawn = d.drawn + 1 } in
      elim (catch r) [ err x ↦ (err x, (t, e)) | ok _ ↦ (ok tt, (drained t, drain cid t e)) ]

  unfoldable pub deliver_established : Session → Bytes → ℕ → Bytes → Call (Unit {0})
  deliver_established s der now cid d =
      let (r, (t, e)) = deliver s der now cid d in
      (r, record e { established_sessions = set cid t e.established_sessions })

  -- `_deliver` and `_reap_responder`
  unfoldable pub deliver_responder : Session → Bytes → ℕ → Bytes → Call (Unit {0})
  deliver_responder s der now cid d =
      let (r, (t, e)) = deliver s der now cid d in
      let f = record e { responder_sessions = set cid t e.responder_sessions } in
      elim r [ err x ↦ (err x, f) | ok _ ↦ (ok tt, reap_responder cid f) ]

  -- a new responder session, once the store has taken its candidate
  unfoldable pub open_responder : Bytes → ℕ → Bytes → Call (Unit {0})
  open_responder der now cid d =
      let (r, (t, e)) = deliver (new_session responder none d.config) der now cid d in
      let f = record e { responder_sessions = set cid t e.responder_sessions } in
      elim r [ err x ↦ (err x, f) | ok _ ↦ (ok tt, settle_responder t cid f) ]

  unfoldable pub route_session_init_request : Bytes → Bytes → ℕ → Call (Unit {0})
  route_session_init_request cid der now d = elim (get cid d.responder_sessions) [
    | some s ↦ deliver_responder s der now cid d
    | none ↦
        let (added, store) = add cid der [] now d.candidates in
        let e = record d { candidates = store } in
        elim added [ err x ↦ unless_limited x e | ok _ ↦ open_responder der now cid e ]
  ]

  -- a fork that has seen these bytes gets them again
  unfoldable pub redeliver :
      List Session × (Session × List Session) → Bytes → ℕ → Bytes → Call (Unit {0})
  redeliver (before, (s, after)) der now cid d =
      let (r, (t, e)) = deliver s der now cid d in
      (r, record e { initiator_forks = set cid (before ++ t ∷ after) e.initiator_forks })

  -- a new fork, once the store has taken its candidate
  unfoldable pub open_fork : Session → List Session → Bytes → ℕ → Bytes → Call (Unit {0})
  open_fork template forks der now cid d = elim (fork env keys template) [
    | err x ↦ (err x, d)
    | ok s ↦
        let (r, (t, e)) = deliver s der now cid d in
        let f = record e { initiator_forks = set cid (forks ++ t ∷ []) e.initiator_forks } in
        elim r [
          | err x ↦ (err x, f)
          | ok _ ↦ (
            ok tt,
            record f { candidates = note_sent cid der (or_else (get_last_sent t) []) f.candidates },
          )
        ]
  ]

  unfoldable pub respond_to_template : Session → Bytes → Bytes → ℕ → Call (Unit {0})
  respond_to_template template cid der now d =
      let forks = or_else (get cid d.initiator_forks) [] in
      elim (find_fork der forks) [
        | some found ↦ redeliver found der now cid d
        | none ↦
            let (added, store) = add cid der [] now d.candidates in
            let e = record d { candidates = store } in
            elim added [
              | err x ↦ unless_limited x e
              | ok _ ↦ open_fork template forks der now cid e
            ]
      ]

  unfoldable pub route_session_init_response : Bytes → Bytes → ℕ → Call (Unit {0})
  route_session_init_response cid der now d = elim (get cid d.initiator_templates) [
    | none ↦ (ok tt, d)
    | some template ↦ respond_to_template template cid der now d
  ]

  -- the loop of `_route_to_forks`: the fork that became established, all forks as they are then,
  -- and the count of draws
  unfoldable pub try_forks :
      Bytes → ℕ → List Session → ℕ → Result (Option Session) × (List Session × ℕ)
  try_forks der now [] k = (ok none, ([], k))
  try_forks der now (s ∷ rest) k =
      let (r, t) = update env keys (random k) now (post_pdu der s) in
      let (winner, (others, n)) = try_forks der now rest (k + 1) in
      elim (catch r) [
        | err x ↦ (err x, (t ∷ rest, k + 1))
        | ok outcome ↦ elim outcome [
          | none ↦ (winner, (t ∷ others, n))
          | some _ ↦
              if t.state == established
              then (ok (some t), (t ∷ rest, k + 1))
              else (winner, (t ∷ others, n))
        ]
      ]

  unfoldable pub route_to_forks : List Session → Bytes → Bytes → ℕ → Call (Unit {0})
  route_to_forks forks cid der now d =
      let (winner, (others, n)) = try_forks der now forks d.drawn in
      finish_forks cid winner
        (record d { initiator_forks = set cid others d.initiator_forks; drawn = n })

  -- a PDU that is not a first-flight message
  unfoldable pub route_other : Bytes → Bytes → ℕ → Call (Unit {0})
  route_other cid der now d = elim (get cid d.responder_sessions) [
    | some s ↦ deliver_responder s der now cid d
    | none ↦ elim (get cid d.initiator_forks) [
      | some forks ↦ route_to_forks forks cid der now d
      | none ↦ (ok tt, d)
    ]
  ]

  unfoldable pub route_pending : MakePayload → Bytes → Bytes → ℕ → Call (Unit {0})
  route_pending (session_init_request _) cid der now d = route_session_init_request cid der now d
  route_pending (session_init_response _) cid der now d = route_session_init_response cid der now d
  route_pending (session_completion_request _) cid der now d = route_other cid der now d
  route_pending (session_completion_response _) cid der now d = route_other cid der now d
  route_pending (message _) cid der now d = route_other cid der now d

  unfoldable pub route_message : MakeMessage → Bytes → ℕ → Call (Unit {0})
  route_message msg der now d = elim (get (correlation_id msg) d.established_sessions) [
    | some s ↦ deliver_established s der now (correlation_id msg) d
    | none ↦ route_pending msg.payload (correlation_id msg) der now d
  ]

  -- the result of reading: a ValueError drops the PDU
  unfoldable pub route_loaded : Result MakeMessage → Bytes → ℕ → Call (Unit {0})
  route_loaded (ok msg) der now d = route_message msg der now d
  route_loaded (err e) der now d = if is_value_error e then (ok tt, d) else (err e, d)
