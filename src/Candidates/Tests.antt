-- ===== src/Candidates/Tests.antt =====
-- `CandidateStore` run on small inputs, and its theorems at concrete stores.
use kem_make.Base.{
  ◌+◌, ◌≡◌, refl, Bytes, some, none, List, [], ◌∷◌, ◌++◌, subst, length, if◌then◌else◌, ◌&&◌, ◌==◌,
  bytes_eq, All, ◌⊎◌, ◌≢◌, bytes_discrete, keep,
}
use kem_make.Base.Dict.{get, set}
use kem_make.Errors.{ok, err, candidate_limit_exceeded}
use kem_make.Candidates.{
  HandshakeCandidate, CandidateStore, is_expired, init, candidates_for, match_or_none, expire,
  sweep, removed_count, setdefault, add, add_swept, promote, new_candidate,
}
use kem_make.Candidates.Invariant.{IsValid}
use kem_make.Candidates.History.{HasLimits, Call, adds, run, apply, run-init-IsValid}
use kem_make.Candidates.Adding.{
  live_for, fits, expire_exact, add_exact, match_or_none_exact, match_or_none-add, promote_exact,
}

-- Two candidates to a cid, three in all, for ten ticks each.
abbrev fresh : CandidateStore
fresh = record { max_per_cid = 2; max_total = 3; ttl_seconds = 10; by_cid = []; total = 0 }

abbrev cid : Bytes
cid = 7 ∷ []

abbrev other : Bytes
other = 8 ∷ []

abbrev history : List Call
history = adds cid (1 ∷ []) [] 0 ∷ adds cid (2 ∷ []) [] 4 ∷ adds other (3 ∷ []) [] 5 ∷ []

abbrev first : HandshakeCandidate
first = new_candidate fresh cid (1 ∷ []) [] 0

-- What the history leaves.
abbrev full : CandidateStore
full = record fresh {
  by_cid =
      (cid, first ∷ new_candidate fresh cid (2 ∷ []) [] 4 ∷ [])
      ∷ (other, new_candidate fresh other (3 ∷ []) [] 5 ∷ [])
      ∷ [];
  total = 3;
}

run-history : run history fresh ≡ full
unfolding run apply add add_swept expire sweep removed_count candidates_for setdefault get set keep
    is_expired bytes_discrete
run-history = refl

add-full : (add other (4 ∷ []) [] 6 full).0 ≡ err candidate_limit_exceeded
unfolding add add_swept expire sweep removed_count candidates_for setdefault get set keep is_expired
    bytes_discrete
add-full = refl

-- At time 10 the first candidate has expired, so there is room.
add_after_expiry : (add other (4 ∷ []) [] 10 full).0 ≡ ok (new_candidate full other (4 ∷ []) [] 10)
unfolding add add_swept expire sweep removed_count candidates_for setdefault get set keep is_expired
    bytes_discrete
add_after_expiry = refl

fresh-init : init 2 3 10 ≡ ok fresh
unfolding init
fresh-init = refl

full-IsValid : IsValid full
full-IsValid = subst IsValid run-history (run-init-IsValid 2 3 10 fresh history fresh-init).1

run-init-IsValid_example : HasLimits 2 3 10 (run history fresh) × IsValid (run history fresh)
run-init-IsValid_example = run-init-IsValid 2 3 10 fresh history fresh-init

expire_exact_example :
    ((j : Bytes) → candidates_for (expire 10 full).1 j ≡ live_for 10 full j)
    × ((expire 10 full).0 + (expire 10 full).1.total ≡ full.total)
expire_exact_example = expire_exact 10 full full-IsValid

add_exact_example :
    let new = new_candidate full other (4 ∷ []) [] 10 in
    ((add other (4 ∷ []) [] 10 full).0
      ≡ (if fits 10 full other then ok new else err candidate_limit_exceeded))
    × ((j : Bytes)
        → candidates_for (add other (4 ∷ []) [] 10 full).1 j
          ≡ live_for 10 full j ++ (if fits 10 full other && other == j then new ∷ [] else []))
add_exact_example = add_exact other (4 ∷ []) [] 10 full full-IsValid

match_or_none-add_example :
    (d : HandshakeCandidate) × (match_or_none (add other (4 ∷ []) [] 10 full).1 other (4 ∷ [])
      ≡ some d)
    × (d.received_pdu ≡ 4 ∷ [])
match_or_none-add_example =
    match_or_none-add other (4 ∷ []) [] 10 full (new_candidate full other (4 ∷ []) [] 10)
      full-IsValid add_after_expiry

match_or_none_exact_example :
    ((match_or_none full cid (2 ∷ []) ≡ none)
      × All (λ c. c.received_pdu ≢ 2 ∷ []) (candidates_for full cid))
    ⊎ ((c : HandshakeCandidate) × (match_or_none full cid (2 ∷ []) ≡ some c)
        × (c.received_pdu ≡ 2 ∷ [])
        × (before : List HandshakeCandidate) × (after : List HandshakeCandidate) × (candidates_for
              full cid
            ≡ before ++ c ∷ after)
        × All (λ b. b.received_pdu ≢ 2 ∷ []) before)
match_or_none_exact_example = match_or_none_exact full cid (2 ∷ [])

promote_exact_example :
    ((j : Bytes)
      → candidates_for (promote cid first full) j
        ≡ (if cid == j then [] else candidates_for full j))
    × ((promote cid first full).total + length (candidates_for full cid) ≡ full.total)
promote_exact_example = promote_exact cid first full full-IsValid
