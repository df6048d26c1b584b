-- ===== src/Candidates/Adding.antt =====
-- What each operation of `CandidateStore` does to the candidates that a caller sees.
use kem_make.Base.{
  ℕ, ◌+◌, Bytes, ◌≡◌, ◌≢◌, refl, Bool, ◌&&◌, ◌⊎◌, inl, inr, none, some, List, [], ◌∷◌, ◌++◌, ◌==◌,
  bytes_eq, arith, All, length, keep, Bool-cases, ltb, ap, if◌then◌else◌, ◌∙◌, append-nil,
}
use kem_make.Base.Dict.{get, or_else, get-set, get-erase, sum_values-erase}
use kem_make.Errors.{ok, err, candidate_limit_exceeded}
use kem_make.Candidates.{
  HandshakeCandidate, CandidateStore, is_live, candidates_for, first_match, match_or_none, expire,
  setdefault, new_candidate, add_swept, add, discard, promote,
}
use kem_make.Candidates.Expiry.{get-sweep, sum_values-sweep}
use kem_make.Candidates.Invariant.{IsValid, get-setdefault}

-- The candidates of a cid that the sweep at `now` leaves.
abbrev pub live_for : ℕ → CandidateStore → Bytes → List HandshakeCandidate
live_for now s cid = keep (is_live now) (candidates_for s cid)

-- On a valid store, `expire` keeps under every cid exactly the candidates that have not expired, in
-- their order, and returns the number of the others, by which it lowers the counter.
pub expire_exact :
    (now : ℕ) (s : CandidateStore)
    → IsValid s
    → ((cid : Bytes) → candidates_for (expire now s).1 cid ≡ live_for now s cid)
      × ((expire now s).0 + (expire now s).1.total ≡ s.total)
unfolding expire candidates_for
expire_exact now s v = (
  λ cid. get-sweep now cid s.by_cid v.distinct,
  omega (arith, sum_values-sweep now s.by_cid, v.counted),
)

-- `add` accepts when the sweep leaves room under the cid and in the store.
abbrev pub fits : ℕ → CandidateStore → Bytes → Bool
fits now s cid =
    ltb (length (live_for now s cid)) s.max_per_cid && ltb (expire now s).1.total s.max_total

add_swept_exact :
    (cid received sent : Bytes) (now : ℕ) (s : CandidateStore) (t : Bool)
    → (ltb (length (candidates_for s cid)) s.max_per_cid && ltb s.total s.max_total) ≡ t
    → ((add_swept s cid received sent now).0
        ≡ (if t then ok (new_candidate s cid received sent now) else err candidate_limit_exceeded))
      × ((j : Bytes)
          → candidates_for (add_swept s cid received sent now).1 j
            ≡ candidates_for s j
              ++ (if t && cid == j then new_candidate s cid received sent now ∷ [] else []))
unfolding add_swept candidates_for
add_swept_exact cid received sent now s t e = (
  ground arith,
  λ j. ground (
    arith,
    get-setdefault cid j s.by_cid,
    get-set cid j (or_else (get cid s.by_cid) [] ++ new_candidate s cid received sent now ∷ [])
        (setdefault cid s.by_cid),
    append-nil (or_else (get j s.by_cid) []),
  ),
)

-- On a valid store, `add` first drops what has expired. Where the cid and the store then have room
-- it returns the new candidate and puts it behind the others of its cid; otherwise it raises
-- CandidateLimitExceeded and adds nothing. No other cid has anything but expired candidates
-- dropped.
pub add_exact :
    (cid received sent : Bytes) (now : ℕ) (s : CandidateStore)
    → IsValid s
    → let new = new_candidate s cid received sent now in
      ((add cid received sent now s).0
        ≡ (if fits now s cid then ok new else err candidate_limit_exceeded))
      × ((j : Bytes)
          → candidates_for (add cid received sent now s).1 j
            ≡ live_for now s j ++ (if fits now s cid && cid == j then new ∷ [] else []))
unfolding add expire
add_exact cid received sent now s v =
    let swept = (expire now s).1 in
    let same = (expire_exact now s v).0 in
    let added = add_swept_exact cid received sent now swept (fits now s cid) (
      ap
        (λ (l : List HandshakeCandidate).
          ltb (length l) s.max_per_cid && ltb swept.total s.max_total)
        (same cid)) in
    (
      added.0,
      λ j.
          added.1 j
          ∙ ap
              (λ (l : List HandshakeCandidate).
                l
                ++ (if fits now s cid && cid == j
                    then new_candidate s cid received sent now ∷ []
                    else []))
              (same j),
    )

first_match_exact :
    (pdu : Bytes) (cs : List HandshakeCandidate)
    → ((first_match cs pdu ≡ none) × All (λ c. c.received_pdu ≢ pdu) cs)
      ⊎ ((c : HandshakeCandidate) × (first_match cs pdu ≡ some c)
          × (c.received_pdu ≡ pdu)
          × (before : List HandshakeCandidate) × (after : List HandshakeCandidate) × (cs
              ≡ before ++ c ∷ after)
          × All (λ b. b.received_pdu ≢ pdu) before)
unfolding first_match
first_match_exact pdu [] = inl (refl, tt)
first_match_exact pdu (c ∷ cs) = elim (Bool-cases (pdu == c.received_pdu)) [
  | inl e ↦ inr (c, ground arith, ground arith, [], cs, refl, tt)
  | inr e ↦ elim (first_match_exact pdu cs) [
    | inl absent ↦ inl (ground arith, (ground arith, absent.1))
    | inr (d, found, same, before, after, listed, apart) ↦
        inr
          (d, ground arith, same, c ∷ before, after, ap (λ l. c ∷ l) listed, (ground arith, apart))
  ]
]

-- The duplicate check finds the first of the cid's candidates that was made for exactly these
-- bytes, and finds none exactly if every candidate of the cid was made for other bytes.
pub match_or_none_exact :
    (s : CandidateStore) (cid pdu : Bytes)
    → ((match_or_none s cid pdu ≡ none) × All (λ c. c.received_pdu ≢ pdu) (candidates_for s cid))
      ⊎ ((c : HandshakeCandidate) × (match_or_none s cid pdu ≡ some c)
          × (c.received_pdu ≡ pdu)
          × (before : List HandshakeCandidate) × (after : List HandshakeCandidate) × (candidates_for
                s cid
              ≡ before ++ c ∷ after)
          × All (λ b. b.received_pdu ≢ pdu) before)
unfolding match_or_none
match_or_none_exact s cid pdu = first_match_exact pdu (candidates_for s cid)

first_match-append :
    (pdu : Bytes) (c : HandshakeCandidate) (cs : List HandshakeCandidate)
    → c.received_pdu ≡ pdu
    → first_match (cs ++ c ∷ []) pdu ≢ none
unfolding first_match
first_match-append pdu c [] e h = ground arith
first_match-append pdu c (d ∷ cs) e h = ground (arith, first_match-append pdu c cs e)

-- After `add` has accepted a PDU, the duplicate check on the same PDU under the same cid finds a
-- candidate made for exactly that PDU.
pub match_or_none-add :
    (cid received sent : Bytes) (now : ℕ) (s : CandidateStore) (c : HandshakeCandidate)
    → IsValid s
    → (add cid received sent now s).0 ≡ ok c
    → (d : HandshakeCandidate) × (match_or_none (add cid received sent now s).1 cid received
        ≡ some d)
      × (d.received_pdu ≡ received)
unfolding match_or_none
match_or_none-add cid received sent now s c v e =
    elim (match_or_none_exact (add cid received sent now s).1 cid received) [
      | inr (d, found, same, _, _, _, _) ↦ (d, found, same)
      | inl (absent, _) ↦ absurd (
          first_match-append received (new_candidate s cid received sent now) (live_for now s cid)
            refl
            (ground (
              arith,
              add_exact cid received sent now s v,
              (add_exact cid received sent now s v).1 cid,
            )))
    ]

-- `promote` and `discard` leave no candidate under the cid and touch no other cid; the counter
-- falls by the number that went.
pub promote_exact :
    (cid : Bytes) (winner : HandshakeCandidate) (s : CandidateStore)
    → IsValid s
    → ((j : Bytes)
        → candidates_for (promote cid winner s) j ≡ (if cid == j then [] else candidates_for s j))
      × ((promote cid winner s).total + length (candidates_for s cid) ≡ s.total)
unfolding promote discard candidates_for
promote_exact cid winner s v = (
  λ j. ground (arith, get-erase cid j s.by_cid),
  ground (arith, sum_values-erase length cid s.by_cid v.distinct, v.counted),
)
