-- ===== src/Dispatcher/State.antt =====
-- src/kem_make/dispatcher.py: the attributes of a `Dispatcher`, and its bookkeeping.
use kem_make.Base.{
  ℕ, Bytes, Bool, true, false, Option, none, some, List, [], ◌∷◌, ◌++◌, map, ◌==◌, bytes_eq,
  if◌then◌else◌,
}
use kem_make.Base.Dict.{Dict, get, set, erase, contains}
use kem_make.Errors.{Result, ok, err, handshake_failed, unexpected_pdu}
use kem_make.Candidates.{HandshakeCandidate, CandidateStore, candidates_for, discard}
use kem_make.Session.State.{Session, SessionConfig, established, dropped, state_eq}

-- The key store is an argument of the calls that use it; `drawn` counts the sessions' calls that
-- may have drawn random numbers.
pub record Dispatcher : Type 0 where
  pub config : SessionConfig
  pub candidates : CandidateStore
  pub established_sessions : Dict Session
  pub responder_sessions : Dict Session
  pub initiator_templates : Dict Session
  pub initiator_forks : Dict (List Session)
  pub outgoing_pdus : List Bytes
  pub outgoing_payloads : List (Bytes × Bytes)
  pub drawn : ℕ

-- `Dispatcher.__init__`
unfoldable pub new_dispatcher : SessionConfig → CandidateStore → Dispatcher
new_dispatcher config candidates = record {
  config = config;
  candidates = candidates;
  established_sessions = [];
  responder_sessions = [];
  initiator_templates = [];
  initiator_forks = [];
  outgoing_pdus = [];
  outgoing_payloads = [];
  drawn = 0;
}

-- `except (HandshakeFailed, UnexpectedPDU)`: `none` where that was caught.
unfoldable pub catch : {A : Type 0} → Result A → Result (Option A)
catch (ok a) = ok (some a)
catch (err handshake_failed) = ok none
catch (err unexpected_pdu) = ok none
catch (err e) = err e

-- `_drain`: both loops take all that the session has queued
unfoldable pub drained : Session → Session
drained s = record s { outgoing_pdus = []; outgoing_payloads = [] }

unfoldable pub drain : Bytes → Session → Dispatcher → Dispatcher
drain cid s d = record d {
  outgoing_pdus = d.outgoing_pdus ++ s.outgoing_pdus;
  outgoing_payloads = d.outgoing_payloads ++ map (λ payload. (cid, payload)) s.outgoing_payloads;
}

-- `_promote`
unfoldable pub promote : Bytes → Session → Dispatcher → Dispatcher
promote cid winner d = record d {
  established_sessions = set cid winner d.established_sessions;
  responder_sessions = erase cid d.responder_sessions;
  initiator_forks = erase cid d.initiator_forks;
  initiator_templates = erase cid d.initiator_templates;
  candidates = discard cid d.candidates;
}

-- a session that is over: `del self._responder_sessions[cid]` with its candidates
unfoldable pub drop_responder : Bytes → Dispatcher → Dispatcher
drop_responder cid d = record d {
  responder_sessions = erase cid d.responder_sessions;
  candidates = discard cid d.candidates;
}

unfoldable pub drop_initiator : Bytes → Dispatcher → Dispatcher
drop_initiator cid d = record d {
  initiator_forks = erase cid d.initiator_forks;
  initiator_templates = erase cid d.initiator_templates;
  candidates = discard cid d.candidates;
}

-- what `_reap_responder` does with the session that it finds
unfoldable pub reap : Bytes → Session → Dispatcher → Dispatcher
reap cid s d =
    if s.state == established
    then promote cid (drained s) (drain cid s d)
    else if s.state == dropped
    then drop_responder cid d
    else d

-- `_reap_responder`
unfoldable pub reap_responder : Bytes → Dispatcher → Dispatcher
reap_responder cid d = elim (get cid d.responder_sessions) [ none ↦ d | some s ↦ reap cid s d ]

-- `for key in list(d): …`, with what the loop changes as state
unfoldable pub for_each {ℓ} : {A V : Type ℓ} → Dict V → (Bytes → A → A) → A → A
for_each [] f a = a
for_each ((k, v) ∷ d) f a = for_each d f (f k a)

abbrev pub has_none : List HandshakeCandidate → Bool
has_none [] = true
has_none (c ∷ cs) = false

-- the bodies of the loops of `_reconcile_expired_candidates`
unfoldable pub reconcile_responder : Bytes → Dispatcher → Dispatcher
reconcile_responder cid d =
    if has_none (candidates_for d.candidates cid)
    then record d { responder_sessions = erase cid d.responder_sessions }
    else d

unfoldable pub reconcile_initiator : Bytes → Dispatcher → Dispatcher
reconcile_initiator cid d =
    if has_none (candidates_for d.candidates cid)
    then (if contains cid d.established_sessions then d else record d {
      initiator_forks = erase cid d.initiator_forks;
      initiator_templates = erase cid d.initiator_templates;
    })
    else d

-- `_reconcile_expired_candidates`
unfoldable pub reconcile_expired_candidates : Dispatcher → Dispatcher
reconcile_expired_candidates d =
    let e = for_each d.responder_sessions reconcile_responder d in
    for_each e.initiator_forks reconcile_initiator e

-- `entries[0].sent_pdu = …` on what `candidates_for` returns, which shares the store's entries
unfoldable pub note_first : Bytes → Bytes → CandidateStore → CandidateStore
note_first cid sent store = elim (get cid store.by_cid) [
  | none ↦ store
  | some entries ↦ elim entries [
    | [] ↦ store
    | entry ∷ rest ↦ record store {
      by_cid = set cid (record entry { sent_pdu = sent } ∷ rest) store.by_cid;
    }
  ]
]

abbrev pub note_matching : Bytes → Bytes → HandshakeCandidate → HandshakeCandidate
note_matching der sent entry =
    if entry.received_pdu == der then record entry { sent_pdu = sent } else entry

-- `for entry in entries: if entry.received_pdu == der_bytes: entry.sent_pdu = …`
unfoldable pub note_sent : Bytes → Bytes → Bytes → CandidateStore → CandidateStore
note_sent cid der sent store = elim (get cid store.by_cid) [
  | none ↦ store
  | some entries ↦ record store {
    by_cid = set cid (map (note_matching der sent) entries) store.by_cid;
  }
]
