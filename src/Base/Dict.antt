-- ===== src/Base/Dict.antt =====
-- Python's `dict` with byte strings for keys (a `uuid.UUID` stands as its 16 bytes), as the
-- association list of its items in insertion order.
use Prim.Native.Nat.{ℕ, ◌+◌}
use mathlib.Core.Bool.{Bool, true, false}
use mathlib.Core.List.{List, [], ◌∷◌}
use mathlib.Core.Option.{Option, none, some}
use mathlib.Core.Path.{◌≡◌, refl, sym, subst}
use native.Mathlib.Omega.{arith}
use kem_make.Base.Tests.{Bytes, ◌==◌, if◌then◌else◌, bytes_eq, bytes_discrete}

abbrev pub Dict {ℓ} : Type ℓ → Type ℓ
Dict V = List (Bytes × V)

abbrev pub is_some {ℓ} : {A : Type ℓ} → Option A → Bool
is_some none = false
is_some (some a) = true

abbrev pub or_else {ℓ} : {A : Type ℓ} → Option A → A → A
or_else none a = a
or_else (some b) a = b

module _ {ℓ} {V : Type ℓ} where
  -- `d.get(k)`
  unfoldable pub get : Bytes → Dict V → Option V
  get k [] = none
  get k ((j, v) ∷ d) = if j == k then some v else get k d

  -- `d[k] = v`
  unfoldable pub set : Bytes → V → Dict V → Dict V
  set k v [] = (k, v) ∷ []
  set k v ((j, w) ∷ d) = if j == k then (j, v) ∷ d else (j, w) ∷ set k v d

  -- `d.pop(k, None)`, `del d[k]`
  unfoldable pub erase : Bytes → Dict V → Dict V
  erase k [] = []
  erase k ((j, v) ∷ d) = let rest = erase k d in if j == k then rest else (j, v) ∷ rest

  -- `k in d`
  abbrev pub contains : Bytes → Dict V → Bool
  contains k d = is_some (get k d)

  pub get-set :
      (k j : Bytes) (v : V) (d : Dict V) → get j (set k v d) ≡ (if k == j then some v else get j d)
  unfolding get set
  get-set k j v [] = ground arith
  get-set k j v ((i, w) ∷ d) = ground (arith, get-set k j v d)

  pub get-erase :
      (k j : Bytes) (d : Dict V) → get j (erase k d) ≡ (if k == j then none else get j d)
  unfolding get erase
  get-erase k j [] = ground arith
  get-erase k j ((i, w) ∷ d) = ground (arith, get-erase k j d)

  -- No key stands twice.
  abbrev pub Distinct : Dict V → Type ℓ
  Distinct [] = Unit
  Distinct ((k, v) ∷ d) = (get k d ≡ none) × Distinct d

  pub set-Distinct : (k : Bytes) (v : V) (d : Dict V) → Distinct d → Distinct (set k v d)
  unfolding set get
  set-Distinct k v [] h = (refl, tt)
  set-Distinct k v ((j, w) ∷ d) h = ground (arith, set-Distinct k v d h.1, get-set k j v d)

  pub erase-Distinct : (k : Bytes) (d : Dict V) → Distinct d → Distinct (erase k d)
  unfolding erase
  erase-Distinct k [] h = tt
  erase-Distinct k ((j, w) ∷ d) h = ground (arith, erase-Distinct k d h.1, get-erase k j d)

  pub erase_absent : (k : Bytes) (d : Dict V) → get k d ≡ none → erase k d ≡ d
  unfolding erase get
  erase_absent k [] h = refl
  erase_absent k ((j, w) ∷ d) h = ground (arith, erase_absent k d)

  -- Every entry has the property.
  abbrev pub Each {κ} : (Bytes → V → Type κ) → Dict V → Type κ
  Each P [] = Unit
  Each P ((k, v) ∷ d) = P k v × Each P d

  pub get-Each {κ} :
      (P : Bytes → V → Type κ) (k : Bytes) (v : V) (d : Dict V)
      → Each P d
      → get k d ≡ some v
      → P k v
  unfolding get
  get-Each P k v [] h e = cc
  get-Each P k v ((j, w) ∷ d) h e = elim (bytes_discrete j k) [
    | yes p ↦ subst (λ i. P i v) p (ground arith)
    | no p ↦ get-Each P k v d h.1 (ground arith)
  ]

  pub set-Each {κ} :
      (P : Bytes → V → Type κ) (k : Bytes) (v : V) (d : Dict V)
      → Each P d
      → P k v
      → Each P (set k v d)
  unfolding set
  set-Each P k v [] h p = (p, tt)
  set-Each P k v ((j, w) ∷ d) h p = elim (bytes_discrete j k) [
    | yes e ↦ ground (arith, subst (λ i. P i v) (sym e) p)
    | no e ↦ ground (arith, set-Each P k v d h.1 p)
  ]

  pub erase-Each {κ} :
      (P : Bytes → V → Type κ) (k : Bytes) (d : Dict V) → Each P d → Each P (erase k d)
  unfolding erase
  erase-Each P k [] h = tt
  erase-Each P k ((j, w) ∷ d) h = ground (arith, erase-Each P k d h.1)

  -- A size summed over the values.
  unfoldable pub sum_values : (V → ℕ) → Dict V → ℕ
  sum_values f [] = 0
  sum_values f ((k, v) ∷ d) = f v + sum_values f d

  abbrev pub size_at : (V → ℕ) → Bytes → Dict V → ℕ
  size_at f k d = elim (get k d) [ none ↦ 0 | some v ↦ f v ]

  pub sum_values-set :
      (f : V → ℕ) (k : Bytes) (v : V) (d : Dict V)
      → sum_values f (set k v d) + size_at f k d ≡ sum_values f d + f v
  unfolding set get sum_values
  sum_values-set f k v [] = ground arith
  sum_values-set f k v ((j, w) ∷ d) = ground (arith, sum_values-set f k v d)

  pub sum_values-erase :
      (f : V → ℕ) (k : Bytes) (d : Dict V)
      → Distinct d
      → sum_values f (erase k d) + size_at f k d ≡ sum_values f d
  unfolding erase get sum_values
  sum_values-erase f k [] h = ground arith
  sum_values-erase f k ((j, w) ∷ d) h = ground (arith, sum_values-erase f k d h.1, erase_absent k d)

pub ruleset dict_laws = (get-set, get-erase)
