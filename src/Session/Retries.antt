-- ===== src/Session/Retries.antt =====
-- Timeouts: what `update` does when nothing has arrived.
use kem_make.Base.{
  ℕ, suc, ◌+◌, ◌-◌, ◌≤◌, ◌<◌, Bytes, true, false, ◌≡◌, refl, sym, ap, ◌∙◌, ◌⊎◌, inl, inr, some,
  List, [], ◌∷◌, ◌++◌, arith, Option-cases, Bool-cases, append-nil, append_assoc, ltb, replicate,
  length,
}
use kem_make.Session.Backend.{Env, KeyLookup, Coins}
use kem_make.Session.State.{
  initiator, expect_session_init_response, expect_session_completion_response, dropped, Session,
  state_discrete,
}
use kem_make.Session.{on_timeout, is_due, process_queued, send_pending, settle, update}

-- An initiator that waits for an answer to the PDU that it keeps.
pub record IsWaiting (pdu : Bytes) (s : Session) : Type 0 where
  pub role : s.role ≡ initiator
  pub waits :
      (s.state ≡ expect_session_init_response) ⊎ (s.state ≡ expect_session_completion_response)
  pub keeps : s.last_sent ≡ some pdu
  pub idle : s.incoming_queue ≡ []
  pub budget : s.attempt_count ≤ s.config.max_retries

-- The session after one resending.
abbrev pub resent : Bytes → ℕ → Session → Session
resent pdu now s = record s {
  attempt_count = s.attempt_count + 1;
  deadline = some (now + s.config.retry_interval_seconds);
  outgoing_pdus = s.outgoing_pdus ++ pdu ∷ [];
}

resent-IsWaiting :
    (pdu : Bytes) (now : ℕ) (s : Session)
    → IsWaiting pdu s
    → s.attempt_count < s.config.max_retries
    → IsWaiting pdu (resent pdu now s)
resent-IsWaiting pdu now s w left = record {
  role = w.role;
  waits = w.waits;
  keeps = w.keeps;
  idle = w.idle;
  budget = omega arith;
}

module _ (env : Env) (keys : KeyLookup) where
  abbrev pub cranked : Coins → ℕ → Session → Session
  cranked coins now s = (update env keys coins now s).1

  -- before the deadline nothing happens
  tick_early :
      (coins : Coins) (pdu : Bytes) (now : ℕ) (s : Session)
      → IsWaiting pdu s
      → is_due now s ≡ false
      → cranked coins now s ≡ s
  unfolding update process_queued send_pending settle state_discrete
  tick_early coins pdu now s w e = ground arith

  due_deadline :
      (now : ℕ) (s : Session) → is_due now s ≡ true → (d : ℕ) × (s.deadline ≡ some d) × (d ≤ now)
  unfolding is_due
  due_deadline now s h = elim (Option-cases s.deadline) [
    | inl absent ↦ absurd (ground arith)
    | inr (d, e) ↦ (d, e, ground arith)
  ]

  -- at the deadline the PDU is queued again, unchanged, while there are retries
  tick_resends :
      (coins : Coins) (pdu : Bytes) (now d : ℕ) (s : Session)
      → IsWaiting pdu s
      → s.deadline ≡ some d
      → d ≤ now
      → s.attempt_count < s.config.max_retries
      → cranked coins now s ≡ resent pdu now s
  unfolding update process_queued send_pending settle is_due on_timeout state_discrete
  tick_resends coins pdu now d s w e due left = ground arith

  -- and after the last one the session is dropped
  tick_gives_up :
      (coins : Coins) (pdu : Bytes) (now d : ℕ) (s : Session)
      → IsWaiting pdu s
      → s.deadline ≡ some d
      → d ≤ now
      → s.attempt_count ≡ s.config.max_retries
      → cranked coins now s ≡ record s { state = dropped }
  unfolding update process_queued send_pending settle is_due on_timeout state_discrete
  tick_gives_up coins pdu now d s w e due none_left = ground arith

  dropped_stays :
      (coins : Coins) (now : ℕ) (s : Session) → s.state ≡ dropped → cranked coins now s ≡ s
  unfolding update state_discrete
  dropped_stays coins now s e = ground arith

  -- Cranks at the times given, with nothing that arrives.
  unfoldable pub idle : List (Coins × ℕ) → Session → Session
  idle [] s = s
  idle ((coins, now) ∷ rest) s = idle rest (cranked coins now s)

  idle-step :
      (coins : Coins) (now : ℕ) (rest : List (Coins × ℕ)) (s t : Session)
      → cranked coins now s ≡ t
      → idle ((coins, now) ∷ rest) s ≡ idle rest t
  unfolding idle
  idle-step coins now rest s t e = ap (idle rest) e

  idle-dropped : (ticks : List (Coins × ℕ)) (s : Session) → s.state ≡ dropped → idle ticks s ≡ s
  unfolding idle
  idle-dropped [] s e = refl
  idle-dropped ((coins, now) ∷ rest) s e = rw (dropped_stays coins now s e) (idle-dropped rest s e)

  -- Each crank that finds its deadline passed, from a deadline on.
  abbrev pub AllDue : ℕ → ℕ → List (Coins × ℕ) → Type 0
  AllDue interval deadline [] = Unit
  AllDue interval deadline ((coins, now) ∷ rest) =
      (deadline ≤ now) × AllDue interval (now + interval) rest

  -- However often an initiator that waits is cranked, if nothing arrives then all that it queues is
  -- the PDU that it keeps, byte for byte, and no more often than it has retries left.
  pub idle_resends :
      (ticks : List (Coins × ℕ)) (pdu : Bytes) (s : Session)
      → IsWaiting pdu s
      → (n : ℕ) × (n + s.attempt_count ≤ s.config.max_retries)
        × ((idle ticks s).outgoing_pdus ≡ s.outgoing_pdus ++ replicate n pdu)
  unfolding idle
  idle_resends [] pdu s w = (0, omega arith, ground (arith, append-nil s.outgoing_pdus))
  idle_resends ((coins, now) ∷ rest) pdu s w = elim (Bool-cases (is_due now s)) [
    | inr early ↦
        rw (idle-step coins now rest s s (tick_early coins pdu now s w early))
          (idle_resends rest pdu s w)
    | inl due ↦ elim (Bool-cases (ltb s.attempt_count s.config.max_retries)) [
      | inl left ↦
          let (d, e, passed) = due_deadline now s due in
          let (n, bound, sent) =
            idle_resends rest pdu (resent pdu now s)
              (resent-IsWaiting pdu now s w (ground arith)) in
          (
            suc n,
            omega arith,
            rw
                (idle-step coins now rest s (resent pdu now s)
                  (tick_resends coins pdu now d s w e passed (ground arith)))
                (sent ∙ append_assoc s.outgoing_pdus (pdu ∷ []) (replicate n pdu)),
          )
      | inr spent ↦
          let (d, e, passed) = due_deadline now s due in
          (
            0,
            omega arith,
            rw
                (
                  idle-step coins now rest s (record s { state = dropped })
                      (tick_gives_up coins pdu now d s w e passed (ground arith)),
                  idle-dropped rest (record s { state = dropped }) refl,
                )
                (sym (append-nil s.outgoing_pdus)),
          )
    ]
  ]

  -- An initiator that waits, cranked once more than it has retries left and each time after its
  -- deadline: it resends the PDU that it keeps once for each retry, and is then dropped.
  pub idle_gives_up :
      (ticks : List (Coins × ℕ)) (pdu : Bytes) (d : ℕ) (s : Session)
      → IsWaiting pdu s
      → s.deadline ≡ some d
      → AllDue s.config.retry_interval_seconds d ticks
      → length ticks + s.attempt_count ≡ suc s.config.max_retries
      → ((idle ticks s).state ≡ dropped)
        × ((idle ticks s).outgoing_pdus
            ≡ s.outgoing_pdus ++ replicate (s.config.max_retries - s.attempt_count) pdu)
  unfolding idle
  idle_gives_up [] pdu d s w e due count = absurd (omega (arith, w.budget))
  idle_gives_up ((coins, now) ∷ []) pdu d s w e due count =
      let spent : s.attempt_count ≡ s.config.max_retries = omega arith in
      rw
        (idle-step coins now [] s (record s { state = dropped })
          (tick_gives_up coins pdu now d s w e due.0 spent))
        (refl, ground (arith, append-nil s.outgoing_pdus))
  idle_gives_up ((coins, now) ∷ tick ∷ rest) pdu d s w e due count =
      let left : s.attempt_count < s.config.max_retries = omega arith in
      let (gone, sent) =
        idle_gives_up (tick ∷ rest) pdu (now + s.config.retry_interval_seconds) (resent pdu now s)
          (resent-IsWaiting pdu now s w left) refl due.1 (omega arith) in
      let spared : s.config.max_retries - s.attempt_count
          ≡ suc (s.config.max_retries - (s.attempt_count + 1)) =
        omega arith in
      rw
        (
          idle-step coins now (tick ∷ rest) s (resent pdu now s)
              (tick_resends coins pdu now d s w e due.0 left),
          spared,
        )
        (
          gone,
          sent
              ∙ append_assoc s.outgoing_pdus (pdu ∷ [])
                  (replicate (s.config.max_retries - (s.attempt_count + 1)) pdu),
        )
