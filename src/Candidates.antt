-- ===== src/Candidates.antt =====
-- src/kem_make/candidate.py. Times are natural numbers of a fixed unit (the program's are floats
-- of seconds, which it only adds and compares); PDUs are opaque byte strings. The proofs are in
-- the modules below.
pub mod Expiry
pub mod Invariant
pub mod History
pub mod Adding
mod Tests
use kem_make.Base.{
  ℕ, ◌+◌, ◌-◌, Bytes, Bool, true, false, not, Option, none, some, List, [], ◌∷◌, ◌++◌, ltb, leb,
  ◌==◌, bytes_eq, if◌then◌else◌, length, keep,
}
use kem_make.Base.Dict.{Dict, get, set, erase, or_else}
use kem_make.Errors.{Result, ok, err, value_error, candidate_limit_exceeded}

pub record HandshakeCandidate : Type 0 where
  pub cid : Bytes
  pub received_pdu : Bytes
  pub sent_pdu : Bytes
  pub created_at : ℕ
  pub expires_at : ℕ
  pub attempt_count : ℕ

unfoldable pub is_expired : HandshakeCandidate → ℕ → Bool
is_expired c now = leb c.expires_at now

unfoldable pub matches_received : HandshakeCandidate → Bytes → Bool
matches_received c pdu = pdu == c.received_pdu

abbrev pub is_live : ℕ → HandshakeCandidate → Bool
is_live now c = not (is_expired c now)

pub record CandidateStore : Type 0 where
  pub max_per_cid : ℕ
  pub max_total : ℕ
  pub ttl_seconds : ℕ
  pub by_cid : Dict (List HandshakeCandidate)
  pub total : ℕ

-- The defaults of `CandidateStore.__init__`.
abbrev default_max_candidates_per_cid : ℕ
default_max_candidates_per_cid = 3

abbrev default_max_total_candidates : ℕ
default_max_total_candidates = 1024

abbrev default_candidate_ttl_seconds : ℕ
default_candidate_ttl_seconds = 60

-- `CandidateStore.__init__`
unfoldable pub init : ℕ → ℕ → ℕ → Result CandidateStore
init max_per_cid max_total ttl_seconds =
    if ltb max_per_cid 1
    then err value_error
    else if ltb max_total max_per_cid
    then err value_error
    else ok (record {
      max_per_cid = max_per_cid;
      max_total = max_total;
      ttl_seconds = ttl_seconds;
      by_cid = [];
      total = 0;
    })

unfoldable pub candidates_for : CandidateStore → Bytes → List HandshakeCandidate
candidates_for s cid = or_else (get cid s.by_cid) []

abbrev total_count : CandidateStore → ℕ
total_count s = s.total

-- the loop of `match_or_none`
unfoldable pub first_match : List HandshakeCandidate → Bytes → Option HandshakeCandidate
unfolding matches_received
first_match [] pdu = none
first_match (c ∷ cs) pdu = if matches_received c pdu then some c else first_match cs pdu

unfoldable pub match_or_none : CandidateStore → Bytes → Bytes → Option HandshakeCandidate
unfolding candidates_for first_match
match_or_none s cid pdu = first_match (candidates_for s cid) pdu

-- `if surviving: self._by_cid[cid] = surviving`, else the key goes
abbrev pub put_surviving :
    Bytes
    → List HandshakeCandidate
    → Dict (List HandshakeCandidate)
    → Dict (List HandshakeCandidate)
put_surviving cid [] d = d
put_surviving cid (c ∷ cs) d = (cid, c ∷ cs) ∷ d

-- the two loops of `expire`: what is left of the dict
unfoldable pub sweep : ℕ → Dict (List HandshakeCandidate) → Dict (List HandshakeCandidate)
sweep now [] = []
sweep now ((cid, candidates) ∷ d) =
    let surviving = keep (is_live now) candidates in put_surviving cid surviving (sweep now d)

-- and `removed_count`
unfoldable pub removed_count : ℕ → Dict (List HandshakeCandidate) → ℕ
removed_count now [] = 0
removed_count now ((cid, candidates) ∷ d) =
    let surviving = keep (is_live now) candidates in
    (length candidates - length surviving) + removed_count now d

unfoldable pub expire : ℕ → CandidateStore → ℕ × CandidateStore
expire now s =
    let removed = removed_count now s.by_cid in
    (removed, record s { by_cid = sweep now s.by_cid; total = s.total - removed })

-- `dict.setdefault(cid, [])`, as the dict that it leaves
unfoldable pub setdefault : Bytes → Dict (List HandshakeCandidate) → Dict (List HandshakeCandidate)
setdefault cid d = elim (get cid d) [ none ↦ set cid [] d | some _ ↦ d ]

abbrev pub new_candidate : CandidateStore → Bytes → Bytes → Bytes → ℕ → HandshakeCandidate
new_candidate s cid received_pdu sent_pdu now = record {
  cid = cid;
  received_pdu = received_pdu;
  sent_pdu = sent_pdu;
  created_at = now;
  expires_at = now + s.ttl_seconds;
  attempt_count = 0;
}

-- the part of `add` behind the call of `expire`
unfoldable pub add_swept :
    CandidateStore → Bytes → Bytes → Bytes → ℕ → Result HandshakeCandidate × CandidateStore
add_swept s cid received_pdu sent_pdu now =
    let existing = candidates_for s cid in
    let opened = setdefault cid s.by_cid in
    let candidate = new_candidate s cid received_pdu sent_pdu now in
    if leb s.max_per_cid (length existing)
    then (err candidate_limit_exceeded, record s { by_cid = opened })
    else if leb s.max_total s.total
    then (err candidate_limit_exceeded, record s { by_cid = opened })
    else (
      ok candidate,
      record s { by_cid = set cid (existing ++ candidate ∷ []) opened; total = s.total + 1 },
    )

-- The store comes back after a raise too: the sweep and the key that `setdefault` made stay.
unfoldable pub add :
    Bytes → Bytes → Bytes → ℕ → CandidateStore → Result HandshakeCandidate × CandidateStore
add cid received_pdu sent_pdu now s = add_swept (expire now s).1 cid received_pdu sent_pdu now

-- `discard`
unfoldable pub discard : Bytes → CandidateStore → CandidateStore
unfolding candidates_for
discard cid s = record s {
  by_cid = erase cid s.by_cid;
  total = s.total - length (candidates_for s cid);
}

-- `promote`, which does not look at the winner
unfoldable pub promote : Bytes → HandshakeCandidate → CandidateStore → CandidateStore
unfolding discard
promote cid winner s = discard cid s
