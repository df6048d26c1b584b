-- ===== src/Candidates/Invariant.antt =====
-- The bookkeeping of `CandidateStore`, and the operations of its life as data.
use kem_make.Base.{
  ℕ, ◌+◌, ◌≤◌, ◌<◌, Bytes, ◌≡◌, refl, inl, inr, some, List, [], ◌∷◌, ◌++◌, arith, All, All-append,
  All-keep, length, length-append, List-cases, keep, length-keep-le, Option-cases,
}
use kem_make.Base.Dict.{
  get, set, or_else, Distinct, Each, sum_values, set-Distinct, erase-Distinct, get-Each, set-Each,
  erase-Each, sum_values-set, sum_values-erase, get-set,
}
use kem_make.Errors.{ok}
use kem_make.Candidates.{
  HandshakeCandidate, CandidateStore, is_live, init, candidates_for, sweep, expire, setdefault,
  new_candidate, add_swept, add, discard,
}
use kem_make.Candidates.Expiry.{Table, sweep-Distinct, sum_values-sweep}

-- A candidate stands under its own cid and expires a fixed time after it came.
abbrev pub IsTimed : ℕ → Bytes → HandshakeCandidate → Type 0
IsTimed ttl cid c = (c.cid ≡ cid) × (c.expires_at ≡ c.created_at + ttl)

-- What one entry of the dict satisfies.
abbrev pub IsBounded : ℕ → ℕ → Bytes → List HandshakeCandidate → Type 0
IsBounded cap ttl cid cs = (length cs ≤ cap) × All (IsTimed ttl cid) cs

abbrev pub empty_size : List HandshakeCandidate → ℕ
empty_size [] = 1
empty_size (c ∷ cs) = 0

-- The number of keys that hold an empty list.
abbrev pub empties : Table → ℕ
empties = sum_values empty_size

pub record IsValid (s : CandidateStore) : Type 0 where
  pub distinct : Distinct s.by_cid
  pub bounded : Each (IsBounded s.max_per_cid s.ttl_seconds) s.by_cid
  pub counted : s.total ≡ sum_values length s.by_cid
  pub within : s.total ≤ s.max_total
  pub roomy : 1 ≤ s.max_per_cid
  pub tidy : empties s.by_cid ≤ 1

sweep-Each :
    (cap ttl now : ℕ) (d : Table)
    → Each (IsBounded cap ttl) d
    → Each (IsBounded cap ttl) (sweep now d)
unfolding sweep
sweep-Each cap ttl now [] h = tt
sweep-Each cap ttl now ((j, cs) ∷ d) h = ground (
  arith,
  sweep-Each cap ttl now d h.1,
  length-keep-le (is_live now) cs,
  All-keep (IsTimed ttl j) (is_live now) cs h.0.1,
  List-cases (keep (is_live now) cs),
)

pub empties-sweep : (now : ℕ) (d : Table) → empties (sweep now d) ≡ 0
unfolding sweep sum_values
empties-sweep now [] = refl
empties-sweep now ((j, cs) ∷ d) =
    ground (arith, empties-sweep now d, List-cases (keep (is_live now) cs))

pub init-IsValid : (m t ttl : ℕ) (s : CandidateStore) → init m t ttl ≡ ok s → IsValid s
unfolding init sum_values
init-IsValid m t ttl s h = ground arith

pub expire-IsValid : (now : ℕ) (s : CandidateStore) → IsValid s → IsValid (expire now s).1
unfolding expire
expire-IsValid now s v = record {
  distinct = sweep-Distinct now s.by_cid v.distinct;
  bounded = sweep-Each s.max_per_cid s.ttl_seconds now s.by_cid v.bounded;
  counted = omega (arith, sum_values-sweep now s.by_cid, v.counted);
  within = omega (arith, v.within);
  roomy = v.roomy;
  tidy = omega (arith, empties-sweep now s.by_cid);
}

pub discard-IsValid : (cid : Bytes) (s : CandidateStore) → IsValid s → IsValid (discard cid s)
unfolding discard
discard-IsValid cid s v = record {
  distinct = erase-Distinct cid s.by_cid v.distinct;
  bounded = erase-Each (IsBounded s.max_per_cid s.ttl_seconds) cid s.by_cid v.bounded;
  counted = ground (arith, sum_values-erase length cid s.by_cid v.distinct, v.counted);
  within = omega (arith, v.within);
  roomy = v.roomy;
  tidy = ground (arith, sum_values-erase empty_size cid s.by_cid v.distinct, v.tidy);
}

-- Where the sweep has left no empty list, opening one key makes at most one.
setdefault-IsValid :
    (cid : Bytes) (s : CandidateStore)
    → IsValid s
    → empties s.by_cid ≡ 0
    → IsValid (record s { by_cid = setdefault cid s.by_cid })
unfolding setdefault
setdefault-IsValid cid s v tidy = elim (Option-cases (get cid s.by_cid)) [
  | inr (cs, e) ↦ rw (e, setdefault) v
  | inl e ↦
      rw (e, setdefault)
        (record {
          distinct = set-Distinct cid [] s.by_cid v.distinct;
          bounded =
              set-Each (IsBounded s.max_per_cid s.ttl_seconds) cid [] s.by_cid v.bounded
                (omega arith, tt);
          counted = ground (arith, sum_values-set length cid [] s.by_cid, v.counted);
          within = v.within;
          roomy = v.roomy;
          tidy = ground (arith, sum_values-set empty_size cid [] s.by_cid);
        })
]

pub get-setdefault :
    (cid j : Bytes) (d : Table) → or_else (get j (setdefault cid d)) [] ≡ or_else (get j d) []
unfolding setdefault
get-setdefault cid j d = ground (arith, get-set cid j [] d)

pub get-setdefault_self :
    (cid : Bytes) (d : Table) → get cid (setdefault cid d) ≡ some (or_else (get cid d) [])
unfolding setdefault
get-setdefault_self cid d = ground (arith, get-set cid cid [] d)

-- One more candidate under a cid that has room, in a store that has room.
append-IsValid :
    (cid : Bytes) (cs : List HandshakeCandidate) (c : HandshakeCandidate) (s : CandidateStore)
    → IsValid s
    → get cid s.by_cid ≡ some cs
    → length cs < s.max_per_cid
    → s.total < s.max_total
    → IsTimed s.ttl_seconds cid c
    → IsValid (record s { by_cid = set cid (cs ++ c ∷ []) s.by_cid; total = s.total + 1 })
append-IsValid cid cs c s v e room space timed = record {
  distinct = set-Distinct cid (cs ++ c ∷ []) s.by_cid v.distinct;
  bounded = set-Each (IsBounded s.max_per_cid s.ttl_seconds) cid (cs ++ c ∷ []) s.by_cid v.bounded (
    omega (arith, length-append cs (c ∷ [])),
    All-append (IsTimed s.ttl_seconds cid) cs (c ∷ []) (held.1, (timed, tt)),
  );
  counted = ground (
    arith,
    sum_values-set length cid (cs ++ c ∷ []) s.by_cid,
    length-append cs (c ∷ []),
    v.counted,
  );
  within = omega arith;
  roomy = v.roomy;
  tidy =
      ground
        (arith, sum_values-set empty_size cid (cs ++ c ∷ []) s.by_cid, empty_size-append, v.tidy);
}
  where
    held : IsBounded s.max_per_cid s.ttl_seconds cid cs
    held = get-Each (IsBounded s.max_per_cid s.ttl_seconds) cid cs s.by_cid v.bounded e

    empty_size-append : empty_size (cs ++ c ∷ []) ≡ 0
    empty_size-append = ground (arith, List-cases cs)

add_swept-IsValid :
    (cid received sent : Bytes) (now : ℕ) (s : CandidateStore)
    → IsValid s
    → empties s.by_cid ≡ 0
    → IsValid (add_swept s cid received sent now).1
unfolding add_swept candidates_for
add_swept-IsValid cid received sent now s v tidy = ground (
  arith,
  setdefault-IsValid cid s v tidy,
  append-IsValid cid (or_else (get cid s.by_cid) []) (new_candidate s cid received sent now)
      (record s { by_cid = setdefault cid s.by_cid }) (setdefault-IsValid cid s v tidy)
      (get-setdefault_self cid s.by_cid),
)

pub add-IsValid :
    (cid received sent : Bytes) (now : ℕ) (s : CandidateStore)
    → IsValid s
    → IsValid (add cid received sent now s).1
unfolding add expire
add-IsValid cid received sent now s v =
    add_swept-IsValid cid received sent now (expire now s).1 (expire-IsValid now s v)
      (empties-sweep now s.by_cid)
