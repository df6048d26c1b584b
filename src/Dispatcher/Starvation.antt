-- ===== src/Dispatcher/Starvation.antt =====
-- Handshakes that were initiated: without a candidate at the reconciliation, and beside a responder
-- session of the same correlation id.
use kem_make.Base.{
  ℕ, Bytes, ◌≡◌, refl, none, some, [], ◌∷◌, ◌⊎◌, arith, inl, inr, ◌==◌, bytes_eq, ◌&&◌, not, Bool,
  if◌then◌else◌, Bool-cases,
}
use kem_make.Base.Dict.{Dict, get, set, get-erase, get-set, contains}
use kem_make.Errors.{ok}
use kem_make.Wire.Messages.{MakeMessage, SessionCompletionResponse, session_completion_response}
use kem_make.Wire.{load_message}
use kem_make.Candidates.{candidates_for}
use kem_make.Session.Backend.{Env, KeyLookup, Coins}
use kem_make.Session.State.{Session, established, state_eq}
use kem_make.Dispatcher.State.{
  Dispatcher, has_none, drained, drain, promote, drop_responder, reap, reap_responder, for_each,
  reconcile_responder, reconcile_initiator, reconcile_expired_candidates,
}
use kem_make.Dispatcher.Routing.{
  deliver, deliver_responder, route_other, route_pending, route_message, route_loaded,
}
use kem_make.Dispatcher.{post_pdu}
use kem_make.Session.{update}
use kem_make.Session as Sessions

module _ (cid : Bytes) where
  -- no candidate, and no established session
  abbrev pub is_starved : Dispatcher → Bool
  is_starved d =
      has_none (candidates_for d.candidates cid) && not (contains cid d.established_sessions)

  -- what the loop over the responder sessions leaves
  record RespondersLeft {V : Type 0} (entries : Dict V) (d w : Dispatcher) : Type 0 where
    responders : get cid w.responder_sessions ≡ (
        if has_none (candidates_for d.candidates cid) && contains cid entries
        then none
        else get cid d.responder_sessions)
    same_candidates : w.candidates ≡ d.candidates
    same_established : w.established_sessions ≡ d.established_sessions
    same_forks : w.initiator_forks ≡ d.initiator_forks
    same_templates : w.initiator_templates ≡ d.initiator_templates

  responder_loop :
      {V : Type 0} (entries : Dict V) (d : Dispatcher)
      → RespondersLeft entries d (for_each entries reconcile_responder d)
  unfolding for_each reconcile_responder get
  responder_loop [] d = record {
    responders = ground arith;
    same_candidates = refl;
    same_established = refl;
    same_forks = refl;
    same_templates = refl;
  }
  responder_loop ((k, v) ∷ rest) d =
      let left = responder_loop rest (reconcile_responder k d) in
      let gone = get-erase k cid d.responder_sessions in
      record {
        responders = ground (arith, left.responders, gone);
        same_candidates = ground (arith, left.same_candidates);
        same_established = ground (arith, left.same_established);
        same_forks = ground (arith, left.same_forks);
        same_templates = ground (arith, left.same_templates);
      }

  -- and what the loop over the forks leaves
  record InitiatorsLeft {V : Type 0} (entries : Dict V) (d w : Dispatcher) : Type 0 where
    forks :
        get cid w.initiator_forks
        ≡ (if is_starved d && contains cid entries then none else get cid d.initiator_forks)
    templates :
        get cid w.initiator_templates
        ≡ (if is_starved d && contains cid entries then none else get cid d.initiator_templates)
    same_candidates : w.candidates ≡ d.candidates
    same_established : w.established_sessions ≡ d.established_sessions
    same_responders : w.responder_sessions ≡ d.responder_sessions

  initiator_loop :
      {V : Type 0} (entries : Dict V) (d : Dispatcher)
      → InitiatorsLeft entries d (for_each entries reconcile_initiator d)
  unfolding for_each reconcile_initiator get
  initiator_loop [] d = record {
    forks = ground arith;
    templates = ground arith;
    same_candidates = refl;
    same_established = refl;
    same_responders = refl;
  }
  initiator_loop ((k, v) ∷ rest) d =
      let left = initiator_loop rest (reconcile_initiator k d) in
      record {
        forks = ground (arith, left.forks, get-erase k cid d.initiator_forks);
        templates = ground (arith, left.templates, get-erase k cid d.initiator_templates);
        same_candidates = ground (arith, left.same_candidates);
        same_established = ground (arith, left.same_established);
        same_responders = ground (arith, left.same_responders);
      }

  -- The reconciliation at the start of `update`, for every correlation id: a responder session goes
  -- exactly where no candidate is left; the forks of an initiated handshake, with its template, go
  -- exactly where no candidate is left and no session is established, so also where no response has
  -- come yet; otherwise they stay, as the candidates and the established sessions do.
  pub reconcile_exact :
      (d : Dispatcher)
      → let w = reconcile_expired_candidates d in
        (get cid w.responder_sessions ≡ (
          if has_none (candidates_for d.candidates cid)
          then none
          else get cid d.responder_sessions))
        × (get cid w.initiator_forks ≡ (if is_starved d then none else get cid d.initiator_forks))
        × (get cid w.initiator_templates ≡ (
            if is_starved d && contains cid d.initiator_forks
            then none
            else get cid d.initiator_templates))
        × (w.candidates ≡ d.candidates)
        × (w.established_sessions ≡ d.established_sessions)
  unfolding reconcile_expired_candidates
  reconcile_exact d =
      let e = for_each d.responder_sessions reconcile_responder d in
      let first = responder_loop d.responder_sessions d in
      let second = initiator_loop e.initiator_forks e in
      (
        ground (arith, first.responders, second.same_responders),
        ground
            (arith, second.forks, first.same_forks, first.same_candidates, first.same_established),
        ground (
          arith, second.templates, first.same_forks, first.same_templates, first.same_candidates,
          first.same_established,
        ),
        ground (arith, first.same_candidates, second.same_candidates),
        ground (arith, first.same_established, second.same_established),
      )

  module _ (env : Env) (keys : KeyLookup) (random : ℕ → Coins) where
    -- the session that comes out of a delivery
    abbrev pub delivered : Session → Bytes → ℕ → Dispatcher → Session
    delivered s der now d = (update env keys (random d.drawn) now (Sessions.post_pdu der s)).1

    -- It became established and is the session of the id, and there are no forks.
    abbrev pub HasWon : Session → Dispatcher → Type 0
    HasWon t w =
        (t.state ≡ established)
        × (get cid w.established_sessions ≡ some (drained t))
        × (get cid w.initiator_forks ≡ none)

    reaped_forks :
        (t : Session) (d : Dispatcher)
        → get cid d.responder_sessions ≡ some (drained t)
        → (get cid (reap_responder cid d).initiator_forks ≡ get cid d.initiator_forks)
          ⊎ HasWon t (reap_responder cid d)
    unfolding reap_responder reap promote drop_responder drain drained
    reaped_forks t d found = elim (Bool-cases (t.state == established)) [
      | inl won ↦ inr (
        ground (arith, won),
        ground (arith, found, won, get-set cid cid (drained t) d.established_sessions),
        ground (arith, found, won, get-erase cid cid d.initiator_forks),
      )
      | inr lost ↦ inl (ground (arith, found, lost))
    ]

    shadowing_delivery :
        (s : Session) (der : Bytes) (now : ℕ) (d : Dispatcher)
        → let w = (deliver_responder env keys random s der now cid d).1 in
          (get cid w.initiator_forks ≡ get cid d.initiator_forks) ⊎ HasWon (delivered s der now d) w
    unfolding deliver_responder deliver drain
    shadowing_delivery s der now d =
        let (t, e) = (deliver env keys random s der now cid d).1 in
        ground (
          arith,
          get-set cid cid t e.responder_sessions,
          reaped_forks (delivered s der now d)
              (record e { responder_sessions = set cid t e.responder_sessions }),
        )

    -- While a responder session is pending under a correlation id without an established session, a
    -- completion response under it reaches none of the initiator's forks: they stay as they were, or
    -- the responder session itself becomes established with this PDU, is the established session of
    -- the id, and the forks are gone.
    pub responder_shadows_forks :
        (der : Bytes) (now : ℕ) (d : Dispatcher) (s : Session) (msg : MakeMessage)
        (resp : SessionCompletionResponse)
        → load_message env.asn1 der ≡ ok msg
        → msg.payload ≡ session_completion_response resp
        → msg.cid ≡ cid
        → get cid d.established_sessions ≡ none
        → get cid d.responder_sessions ≡ some s
        → let w = (post_pdu env keys random der now d).1 in
          (get cid w.initiator_forks ≡ get cid d.initiator_forks) ⊎ HasWon (delivered s der now d) w
    unfolding post_pdu route_loaded route_message route_pending route_other
    responder_shadows_forks der now d s msg resp loaded kind own unproven found =
        ground (arith, shadowing_delivery s der now d)
