-- ===== src/Dispatcher/Exclusion.antt =====
-- Established and pending sessions under `update`.
use kem_make.Base.{
  ℕ, Bytes, ◌≡◌, ◌≢◌, subst, some, List, [], ◌∷◌, arith, Option-cases, inl, inr, bytes_discrete,
}
use kem_make.Base.Dict.{Dict, get, set, get-set, get-erase}
use kem_make.Errors.{Result-cases}
use kem_make.Candidates.{expire}
use kem_make.Session.Backend.{Env, KeyLookup, Coins}
use kem_make.Session.State.{Session, Deadline, never}
use kem_make.Session.{update}
use kem_make.Dispatcher.State.{
  Dispatcher, drain, drained, promote, drop_responder, drop_initiator, for_each,
  reconcile_responder, reconcile_initiator, reconcile_expired_candidates,
}
use kem_make.Dispatcher.Crank.{
  Step, visit, update_established_session, settle_responder_session, update_responder_session,
  sweep_forks, settle_forks, update_forks, update_established_sessions, update_responder_sessions,
  process_initiator_forks,
}
use kem_make.Dispatcher.Isolation.{Holds}
use kem_make.Dispatcher.Promotion.{Exclusive, Holds-Exclusive, promote-IsIdle}
use kem_make.Dispatcher as Dispatchers

-- Every correlation id is exclusive.
abbrev pub AllExclusive : Dispatcher → Type 0
AllExclusive d = (j : Bytes) → Exclusive j d

module _ (cid j : Bytes) (d : Dispatcher) (h : Exclusive j d) where
  promote-Exclusive : (winner : Session) → Exclusive j (promote cid winner d)
  unfolding promote
  promote-Exclusive winner = elim (bytes_discrete cid j) [
    | yes same ↦
        subst (λ i. Exclusive i (promote cid winner d)) same (inr (promote-IsIdle cid winner d))
    | no apart ↦ Holds-Exclusive j d (promote cid winner d) (others apart) h
  ]
    where
      others : cid ≢ j → Holds j d (promote cid winner d)
      others apart = ground (
        arith,
        get-set cid j winner d.established_sessions,
        get-erase cid j d.responder_sessions,
        get-erase cid j d.initiator_templates,
        get-erase cid j d.initiator_forks,
      )

  drop_responder-Exclusive : Exclusive j (drop_responder cid d)
  unfolding drop_responder
  drop_responder-Exclusive = ground (arith, get-erase cid j d.responder_sessions)

  drop_initiator-Exclusive : Exclusive j (drop_initiator cid d)
  unfolding drop_initiator
  drop_initiator-Exclusive =
      ground (arith, get-erase cid j d.initiator_forks, get-erase cid j d.initiator_templates)

  reconcile_responder-Exclusive : Exclusive j (reconcile_responder cid d)
  unfolding reconcile_responder
  reconcile_responder-Exclusive = ground (arith, get-erase cid j d.responder_sessions)

  reconcile_initiator-Exclusive : Exclusive j (reconcile_initiator cid d)
  unfolding reconcile_initiator
  reconcile_initiator-Exclusive =
      ground (arith, get-erase cid j d.initiator_forks, get-erase cid j d.initiator_templates)

  set_established-Exclusive :
      (s t : Session)
      → get cid d.established_sessions ≡ some s
      → Exclusive j (record d { established_sessions = set cid t d.established_sessions })
  set_established-Exclusive s t found = ground (arith, get-set cid j t d.established_sessions)

  set_responder-Exclusive :
      (s t : Session)
      → get cid d.responder_sessions ≡ some s
      → Exclusive j (record d { responder_sessions = set cid t d.responder_sessions })
  set_responder-Exclusive s t found = ground (arith, get-set cid j t d.responder_sessions)

  set_forks-Exclusive :
      (s t : List Session)
      → get cid d.initiator_forks ≡ some s
      → Exclusive j (record d { initiator_forks = set cid t d.initiator_forks })
  set_forks-Exclusive s t found = ground (arith, get-set cid j t d.initiator_forks)

for_each-Exclusive :
    {V : Type 0} (entries : Dict V) (f : Bytes → Dispatcher → Dispatcher) (d : Dispatcher)
    → ((cid : Bytes) (e : Dispatcher) → AllExclusive e → AllExclusive (f cid e))
    → AllExclusive d
    → AllExclusive (for_each entries f d)
unfolding for_each
for_each-Exclusive [] f d keeps h = h
for_each-Exclusive ((cid, v) ∷ rest) f d keeps h =
    for_each-Exclusive rest f (f cid d) keeps (keeps cid d h)

reconcile-Exclusive :
    (d : Dispatcher) → AllExclusive d → AllExclusive (reconcile_expired_candidates d)
unfolding reconcile_expired_candidates
reconcile-Exclusive d h =
    let e = for_each d.responder_sessions reconcile_responder d in
    for_each-Exclusive e.initiator_forks reconcile_initiator e
      (λ cid a k j. reconcile_initiator-Exclusive cid j a (k j))
      (for_each-Exclusive d.responder_sessions reconcile_responder d
        (λ cid a k j. reconcile_responder-Exclusive cid j a (k j)) h)

visit-Exclusive :
    {V : Type 0} (entries : Dict V) (f : Bytes → Step) (d : Dispatcher) (n : Deadline)
    → ((cid : Bytes) (e : Dispatcher) (m : Deadline)
        → AllExclusive e
        → AllExclusive (f cid (e, m)).1.0)
    → AllExclusive d
    → AllExclusive (visit entries f (d, n)).1.0
unfolding visit
visit-Exclusive [] f d n keeps h j = h j
visit-Exclusive ((cid, v) ∷ rest) f d n keeps h j = elim (Result-cases (f cid (d, n)).0) [
  | inl (e, raised) ↦ ground (arith, keeps cid d n h j)
  | inr (u, went) ↦
      let (e, m) = (f cid (d, n)).1 in
      ground (arith, visit-Exclusive rest f e m keeps (keeps cid d n h) j)
]

module _ (env : Env) (keys : KeyLookup) (random : ℕ → Coins) (now : ℕ) where
  update_established_session-Exclusive :
      (cid : Bytes) (d : Dispatcher) (n : Deadline)
      → AllExclusive d
      → AllExclusive (update_established_session env keys random now cid (d, n)).1.0
  unfolding update_established_session drain
  update_established_session-Exclusive cid d n h j =
      elim (Option-cases (get cid d.established_sessions)) [
        | inl absent ↦ ground (arith, h j)
        | inr (s, found) ↦
            let t = (update env keys (random d.drawn) now s).1 in
            ground (
              arith,
              set_established-Exclusive cid j d (h j) s t found,
              set_established-Exclusive cid j d (h j) s (drained t) found,
            )
      ]

  update_responder_session-Exclusive :
      (cid : Bytes) (d : Dispatcher) (n : Deadline)
      → AllExclusive d
      → AllExclusive (update_responder_session env keys random now cid (d, n)).1.0
  unfolding update_responder_session settle_responder_session drain drop_responder promote
  update_responder_session-Exclusive cid d n h j =
      elim (Option-cases (get cid d.responder_sessions)) [
        | inl absent ↦ ground (arith, h j)
        | inr (s, found) ↦
            let t = (update env keys (random d.drawn) now s).1 in
            ground (
              arith,
              set_responder-Exclusive cid j d (h j) s t found,
              set_responder-Exclusive cid j d (h j) s (drained t) found,
              drop_responder-Exclusive cid j d (h j),
              promote-Exclusive cid j d (h j) (drained t),
            )
      ]

  update_forks-Exclusive :
      (cid : Bytes) (d : Dispatcher) (n : Deadline)
      → AllExclusive d
      → AllExclusive (update_forks env keys random now cid (d, n)).1.0
  unfolding update_forks settle_forks drain drop_initiator promote
  update_forks-Exclusive cid d n h j = elim (Option-cases (get cid d.initiator_forks)) [
    | inl absent ↦ ground (arith, h j)
    | inr (forks, found) ↦
        let swept = (sweep_forks env keys random now forks d.drawn n).1 in
        elim (Option-cases swept.winner) [
          | inl no_winner ↦ ground (
            arith,
            set_forks-Exclusive cid j d (h j) forks swept.all_forks found,
            set_forks-Exclusive cid j d (h j) forks swept.surviving found,
            drop_initiator-Exclusive cid j d (h j),
          )
          | inr (w, won) ↦ ground (
            arith,
            set_forks-Exclusive cid j d (h j) forks swept.all_forks found,
            promote-Exclusive cid j d (h j) (drained w),
          )
        ]
  ]

  crank-Exclusive :
      (d : Dispatcher) (n : Deadline)
      → AllExclusive d
      → AllExclusive (Dispatchers.crank env keys random now (d, n)).1.0
  unfolding Dispatchers.crank update_established_sessions update_responder_sessions
      process_initiator_forks
  crank-Exclusive d n h j =
      let (e, m) = (update_established_sessions env keys random now (d, n)).1 in
      let first =
        visit-Exclusive d.established_sessions (update_established_session env keys random now) d n
          update_established_session-Exclusive h in
      let (f, k) = (update_responder_sessions env keys random now (e, m)).1 in
      let second =
        visit-Exclusive e.responder_sessions (update_responder_session env keys random now) e m
          update_responder_session-Exclusive first in
      let third =
        visit-Exclusive f.initiator_forks (update_forks env keys random now) f k
          update_forks-Exclusive second in
      ground (arith, first j, second j, third j)

  pub update-Exclusive :
      (d : Dispatcher) → AllExclusive d → AllExclusive (Dispatchers.update env keys random now d).1
  unfolding Dispatchers.update
  update-Exclusive d h j =
      let swept = record d { candidates = (expire now d.candidates).1 } in
      let unchanged : AllExclusive swept = λ i. ground (arith, h i) in
      ground (
        arith,
        crank-Exclusive (reconcile_expired_candidates swept) never
            (reconcile-Exclusive swept unchanged) j,
      )
