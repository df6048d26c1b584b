-- ===== src/Candidates/Expiry.antt =====
-- `CandidateStore.expire`: what the sweep keeps, drops and counts.
use kem_make.Base.{
  ℕ, ◌+◌, Bytes, ◌≡◌, refl, none, List, [], ◌∷◌, arith, length, List-cases, keep, length-keep-le,
}
use kem_make.Base.Dict.{Dict, get, or_else, Distinct, sum_values}
use kem_make.Candidates.{HandshakeCandidate, is_live, sweep, removed_count}

abbrev pub Table : Type 0
Table = Dict (List HandshakeCandidate)

get-sweep_absent :
    (now : ℕ) (cid : Bytes) (d : Table) → get cid d ≡ none → get cid (sweep now d) ≡ none
unfolding get sweep
get-sweep_absent now cid [] h = refl
get-sweep_absent now cid ((j, cs) ∷ d) h =
    ground (arith, get-sweep_absent now cid d, List-cases (keep (is_live now) cs))

pub sweep-Distinct : (now : ℕ) (d : Table) → Distinct d → Distinct (sweep now d)
unfolding sweep
sweep-Distinct now [] h = tt
sweep-Distinct now ((j, cs) ∷ d) h = ground (
  arith,
  sweep-Distinct now d h.1,
  get-sweep_absent now j d h.0,
  List-cases (keep (is_live now) cs),
)

-- What a key holds after the sweep.
pub get-sweep :
    (now : ℕ) (cid : Bytes) (d : Table)
    → Distinct d
    → or_else (get cid (sweep now d)) [] ≡ keep (is_live now) (or_else (get cid d) [])
unfolding get sweep keep
get-sweep now cid [] h = refl
get-sweep now cid ((j, cs) ∷ d) h = ground (
  arith,
  get-sweep now cid d h.1,
  get-sweep_absent now j d h.0,
  List-cases (keep (is_live now) cs),
)

-- Every item is kept or counted.
pub sum_values-sweep :
    (now : ℕ) (d : Table)
    → sum_values length (sweep now d) + removed_count now d ≡ sum_values length d
unfolding sweep removed_count sum_values
sum_values-sweep now [] = refl
sum_values-sweep now ((j, cs) ∷ d) = ground (
  arith,
  sum_values-sweep now d,
  length-keep-le (is_live now) cs,
  List-cases (keep (is_live now) cs),
)
