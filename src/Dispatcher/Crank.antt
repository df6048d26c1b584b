-- ===== src/Dispatcher/Crank.antt =====
-- src/kem_make/dispatcher.py: the three loops of `Dispatcher.update`. Beside the dispatcher they
-- carry the earliest deadline so far.
use kem_make.Base.{ℕ, ◌+◌, Bytes, Option, none, some, List, [], ◌∷◌, ◌==◌, if◌then◌else◌, min}
use kem_make.Base.Dict.{Dict, get, set}
use kem_make.Errors.{Result, ok, err, key_error}
use kem_make.Session.Backend.{Env, KeyLookup, Coins}
use kem_make.Session.State.{Session, established, dropped, state_eq, Deadline, at, never}
use kem_make.Session.{update}
use kem_make.Dispatcher.State.{
  Dispatcher, catch, drain, drained, promote, drop_responder, drop_initiator,
}

-- `min` of two times
unfoldable pub earlier : Deadline → Deadline → Deadline
earlier (at a) (at b) = at (min a b)
earlier (at a) never = at a
earlier never d = d

-- A part of a loop, on the dispatcher and the deadline.
abbrev pub Step : Type 0
Step = Dispatcher × Deadline → Result (Unit {0}) × (Dispatcher × Deadline)

-- `for cid in list(…)`; a raise ends the loop
unfoldable pub visit : {V : Type 0} → Dict V → (Bytes → Step) → Step
visit [] f x = (ok tt, x)
visit ((cid, _) ∷ rest) f x =
    let (r, y) = f cid x in elim r [ err e ↦ (err e, y) | ok _ ↦ visit rest f y ]

-- What the inner loop of `_process_initiator_forks` has found: the forks that it keeps, and all
-- forks as it leaves them.
pub record Sweep : Type 0 where
  pub winner : Option Session
  pub surviving : List Session
  pub all_forks : List Session
  pub drawn : ℕ
  pub deadline : Deadline

-- the end of the body of `_update_responder_sessions`
unfoldable pub settle_responder_session : Bytes → Session → Dispatcher → Dispatcher
settle_responder_session cid t d =
    if t.state == established
    then promote cid (drained t) (drain cid t d)
    else if t.state == dropped
    then drop_responder cid (drain cid t d)
    else drain cid t (record d { responder_sessions = set cid (drained t) d.responder_sessions })

-- what `_process_initiator_forks` does with what it has found for a cid
unfoldable pub settle_forks : Bytes → Sweep → Dispatcher → Dispatcher
settle_forks cid found d = elim found.winner [
  | some winner ↦ promote cid (drained winner) (drain cid winner d)
  | none ↦ elim found.surviving [
    | [] ↦ drop_initiator cid d
    | s ∷ rest ↦ record d { initiator_forks = set cid (s ∷ rest) d.initiator_forks }
  ]
]

module _ (env : Env) (keys : KeyLookup) (random : ℕ → Coins) (now : ℕ) where
  unfoldable pub update_established_session : Bytes → Step
  update_established_session cid (d, earliest) = elim (get cid d.established_sessions) [
    | none ↦ (err key_error, (d, earliest))
    | some s ↦
        let (r, t) = update env keys (random d.drawn) now s in
        let e = record d { drawn = d.drawn + 1 } in
        elim (catch r) [
          | err x ↦ (
            err x,
            (record e { established_sessions = set cid t e.established_sessions }, earliest),
          )
          | ok outcome ↦
              let next : Deadline = elim outcome [
                | none ↦ earliest
                | some report ↦ earlier earliest report.1
              ] in
              (
                ok tt,
                (
                  drain cid t (record e {
                    established_sessions = set cid (drained t) e.established_sessions;
                  }),
                  next,
                ),
              )
        ]
  ]

  unfoldable pub update_responder_session : Bytes → Step
  update_responder_session cid (d, earliest) = elim (get cid d.responder_sessions) [
    | none ↦ (err key_error, (d, earliest))
    | some s ↦
        let (r, t) = update env keys (random d.drawn) now s in
        let e = record d { drawn = d.drawn + 1 } in
        elim (catch r) [
          | err x ↦
              (err x, (record e { responder_sessions = set cid t e.responder_sessions }, earliest))
          | ok outcome ↦ elim outcome [
            | none ↦ (ok tt, (drop_responder cid e, earliest))
            | some report ↦ (ok tt, (settle_responder_session cid t e, earlier earliest report.1))
          ]
        ]
  ]

  -- the inner loop of `_process_initiator_forks`
  unfoldable pub sweep_forks : List Session → ℕ → Deadline → Result (Unit {0}) × Sweep
  sweep_forks [] k earliest = (
    ok tt,
    record { winner = none; surviving = []; all_forks = []; drawn = k; deadline = earliest },
  )
  sweep_forks (s ∷ rest) k earliest =
      let (r, t) = update env keys (random k) now s in
      elim (catch r) [
        | err x ↦ (
          err x,
          record {
            winner = none;
            surviving = [];
            all_forks = t ∷ rest;
            drawn = k + 1;
            deadline = earliest;
          },
        )
        | ok outcome ↦ elim outcome [
          | none ↦
              let (q, found) = sweep_forks rest (k + 1) earliest in
              (q, record found { all_forks = t ∷ found.all_forks })
          | some report ↦
              let (q, found) = sweep_forks rest (k + 1) (earlier earliest report.1) in
              if t.state == established
              then (
                ok tt,
                record {
                  winner = some t;
                  surviving = [];
                  all_forks = t ∷ rest;
                  drawn = k + 1;
                  deadline = earlier earliest report.1;
                },
              )
              else if t.state == dropped
              then (q, record found { all_forks = t ∷ found.all_forks })
              else (
                q,
                record found { all_forks = t ∷ found.all_forks; surviving = t ∷ found.surviving },
              )
        ]
      ]

  unfoldable pub update_forks : Bytes → Step
  update_forks cid (d, earliest) = elim (get cid d.initiator_forks) [
    | none ↦ (err key_error, (d, earliest))
    | some forks ↦
        let (r, found) = sweep_forks forks d.drawn earliest in
        let e = record d { drawn = found.drawn } in
        elim r [
          | err x ↦ (
            err x,
            (
              record e { initiator_forks = set cid found.all_forks e.initiator_forks },
              found.deadline,
            ),
          )
          | ok _ ↦ (ok tt, (settle_forks cid found e, found.deadline))
        ]
  ]

  unfoldable pub update_established_sessions : Step
  update_established_sessions (d, earliest) =
      visit d.established_sessions update_established_session (d, earliest)

  unfoldable pub update_responder_sessions : Step
  update_responder_sessions (d, earliest) =
      visit d.responder_sessions update_responder_session (d, earliest)

  unfoldable pub process_initiator_forks : Step
  process_initiator_forks (d, earliest) = visit d.initiator_forks update_forks (d, earliest)
