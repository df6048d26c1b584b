-- ===== src/Dispatcher.antt =====
-- src/kem_make/dispatcher.py: the public methods of `Dispatcher`.
pub mod State
pub mod Routing
pub mod Crank
pub mod Isolation
pub mod Promotion
pub mod Exclusion
pub mod Reachable
pub mod Starvation
mod Tests
use kem_make.Base.{
  ℕ, ◌+◌, Bytes, Bool, true, false, Option, none, some, List, [], ◌∷◌, ◌++◌, map, if◌then◌else◌,
}
use kem_make.Base.Dict.{get, set, erase}
use kem_make.Errors.{Error, Result, ok, err, index_error, dispatcher_error}
use kem_make.Wire.Messages.{KeyId}
use kem_make.Wire.{load_message}
use kem_make.Candidates.{expire}
use kem_make.Session.Backend.{Env, KeyLookup, Coins}
use kem_make.Session.State.{
  Session, initiator, new_session, UpdateResult, Deadline, at, never, used,
}
use kem_make.Session.{next_update_result}
use kem_make.Session as Sessions
use State.{Dispatcher, reconcile_expired_candidates}
use Routing.{Call, route_loaded}
use Crank.{Step, update_established_sessions, update_responder_sessions, process_initiator_forks}

unfoldable pub poll_pdu : Dispatcher → Bool
poll_pdu d = elim d.outgoing_pdus [ [] ↦ false | pdu ∷ rest ↦ true ]

unfoldable pub get_pdu : Call Bytes
get_pdu d = elim d.outgoing_pdus [
  | [] ↦ (err index_error, d)
  | pdu ∷ rest ↦ (ok pdu, record d { outgoing_pdus = rest })
]

unfoldable pub poll_payload : Dispatcher → Bool
poll_payload d = elim d.outgoing_payloads [ [] ↦ false | payload ∷ rest ↦ true ]

unfoldable pub get_payload : Call (Bytes × Bytes)
get_payload d = elim d.outgoing_payloads [
  | [] ↦ (err index_error, d)
  | payload ∷ rest ↦ (ok payload, record d { outgoing_payloads = rest })
]

unfoldable pub close : Bytes → Dispatcher → Dispatcher
close cid d = record d { established_sessions = erase cid d.established_sessions }

-- `post_payload` on the template and, once that has taken it, on the forks
unfoldable pub post_to_initiator : Bytes → Bytes → Session → Call (Unit {0})
post_to_initiator cid payload template d =
    let (r, t) = Sessions.post_payload payload template in
    let e = record d { initiator_templates = set cid t d.initiator_templates } in
    elim r [
      | err x ↦ (err x, e)
      | ok _ ↦ elim (get cid d.initiator_forks) [
        | none ↦ (ok tt, e)
        | some forks ↦ (
          ok tt,
          record e {
            initiator_forks =
                set cid (map (λ s. (Sessions.post_payload payload s).1) forks) e.initiator_forks;
          },
        )
      ]
    ]

unfoldable pub post_payload : Bytes → Bytes → Call (Unit {0})
post_payload cid payload d = elim (get cid d.established_sessions) [
  | some s ↦
      let (r, t) = Sessions.post_payload payload s in
      (r, record d { established_sessions = set cid t d.established_sessions })
  | none ↦ elim (get cid d.responder_sessions) [
    | some s ↦
        let (r, t) = Sessions.post_payload payload s in
        (r, record d { responder_sessions = set cid t d.responder_sessions })
    | none ↦ elim (get cid d.initiator_templates) [
      | some template ↦ post_to_initiator cid payload template d
      | none ↦ (err dispatcher_error, d)
    ]
  ]
]

-- the attributes that `initiate` writes once the primary session has sent its request
unfoldable pub install_template : Bytes → Session → Dispatcher → Dispatcher
install_template cid primary d = record d {
  initiator_templates = set cid (record primary { outgoing_pdus = [] }) d.initiator_templates;
  initiator_forks = set cid [] d.initiator_forks;
  outgoing_pdus = d.outgoing_pdus ++ primary.outgoing_pdus;
}

-- `float("inf")` becomes the next interval
unfoldable pub settle_deadline : ℕ → Dispatcher → Deadline → Deadline
settle_deadline now d (at deadline) = at deadline
settle_deadline now d never = at (now + d.config.retry_interval_seconds)

module _ (env : Env) (keys : KeyLookup) (random : ℕ → Coins) where
  unfoldable pub initiate : KeyId → KeyId → ℕ → Call Bytes
  initiate own_key_id peer_key_id now d =
      let fresh = new_session initiator (some own_key_id) d.config in
      let (r, primary) = Sessions.initiate env keys (random d.drawn) peer_key_id now fresh in
      let e = record d { drawn = d.drawn + 1 } in
      elim r [
        | err x ↦ (err x, e)
        | ok _ ↦ elim (used primary.cid) [
          | err x ↦ (err x, e)
          | ok cid ↦ (ok cid, install_template cid primary e)
        ]
      ]

  unfoldable pub post_pdu : Bytes → ℕ → Call (Unit {0})
  post_pdu der now d = route_loaded env keys random (load_message env.asn1 der) der now d

  -- `update` behind the expiry
  unfoldable pub crank : ℕ → Step
  crank now x =
      let (r, y) = update_established_sessions env keys random now x in
      elim r [
        | err e ↦ (err e, y)
        | ok _ ↦
            let (q, z) = update_responder_sessions env keys random now y in
            elim q [ err e ↦ (err e, z) | ok _ ↦ process_initiator_forks env keys random now z ]
      ]

  unfoldable pub update : ℕ → Call (UpdateResult × Deadline)
  update now d =
      let swept =
        reconcile_expired_candidates (record d { candidates = (expire now d.candidates).1 }) in
      let (r, (e, earliest)) = crank now (swept, never) in
      elim r [
        | err x ↦ (err x, e)
        | ok _ ↦ (
          ok (next_update_result (poll_payload e) (poll_pdu e) (settle_deadline now e earliest)),
          e,
        )
      ]
