-- ===== src/Candidates/History.antt =====
-- Any sequence of calls on a `CandidateStore`.
use kem_make.Base.{ℕ, Bytes, ◌≡◌, List, [], ◌∷◌, arith}
use kem_make.Errors.{ok}
use kem_make.Candidates.{
  HandshakeCandidate, CandidateStore, init, expire, add_swept, add, discard, promote,
}
use kem_make.Candidates.Invariant.{
  IsValid, init-IsValid, expire-IsValid, add-IsValid, discard-IsValid,
}

-- The calls that a user of the store makes.
pub data Call : Type 0 where
  adds : Bytes → Bytes → Bytes → ℕ → Call
  promotes : Bytes → HandshakeCandidate → Call
  discards : Bytes → Call
  expires : ℕ → Call

unfoldable pub apply : Call → CandidateStore → CandidateStore
apply (adds cid received sent now) s = (add cid received sent now s).1
apply (promotes cid winner) s = promote cid winner s
apply (discards cid) s = discard cid s
apply (expires now) s = (expire now s).1

unfoldable pub run : List Call → CandidateStore → CandidateStore
run [] s = s
run (c ∷ cs) s = run cs (apply c s)

-- The limits of a store, which no call changes.
abbrev pub HasLimits : ℕ → ℕ → ℕ → CandidateStore → Type 0
HasLimits m t ttl s = (s.max_per_cid ≡ m) × (s.max_total ≡ t) × (s.ttl_seconds ≡ ttl)

apply-HasLimits :
    (m t ttl : ℕ) (c : Call) (s : CandidateStore)
    → HasLimits m t ttl s
    → HasLimits m t ttl (apply c s)
unfolding apply promote discard expire add add_swept
apply-HasLimits m t ttl (adds cid received sent now) s h = ground arith
apply-HasLimits m t ttl _ s h = h

apply-IsValid : (c : Call) (s : CandidateStore) → IsValid s → IsValid (apply c s)
unfolding apply promote
apply-IsValid (adds cid received sent now) s v = add-IsValid cid received sent now s v
apply-IsValid (promotes cid winner) s v = discard-IsValid cid s v
apply-IsValid (discards cid) s v = discard-IsValid cid s v
apply-IsValid (expires now) s v = expire-IsValid now s v

run-IsValid :
    (m t ttl : ℕ) (calls : List Call) (s : CandidateStore)
    → HasLimits m t ttl s
    → IsValid s
    → HasLimits m t ttl (run calls s) × IsValid (run calls s)
unfolding run
run-IsValid m t ttl [] s h v = (h, v)
run-IsValid m t ttl (c ∷ cs) s h v =
    run-IsValid m t ttl cs (apply c s) (apply-HasLimits m t ttl c s h) (apply-IsValid c s v)

-- After any calls, whatever their order and times, on a store that was made with accepted limits:
-- the limits are those given, every cid has at most `max_per_cid` candidates, which stand under
-- their own cid and expire `ttl_seconds` after they were made; the counter is the number of
-- candidates and at most `max_total`; no cid is listed twice, and at most one has an empty list.
pub run-init-IsValid :
    (m t ttl : ℕ) (s : CandidateStore) (calls : List Call)
    → init m t ttl ≡ ok s
    → HasLimits m t ttl (run calls s) × IsValid (run calls s)
unfolding init
run-init-IsValid m t ttl s calls e =
    run-IsValid m t ttl calls s (ground arith) (init-IsValid m t ttl s e)
