-- ===== src/Base/Tests.antt =====
-- Boolean tests and the conditional. A test computes to a decision or to `compare`, which the
-- tactics split on.
use Prim.Native.Nat.{ℕ, compare, Ordering}
use Prim.Native.Char.{code}
use Prim.Native.String.{String}
use mathlib.Core.Bool.{Bool, true, false}
use mathlib.Core.List.{List, [], ◌∷◌}
use mathlib.Core.Logic.{◌⊎◌, inl, inr}
use mathlib.Core.Option.{Option, none, some}
use mathlib.Core.Path.{◌≡◌, refl}
use native.Mathlib.Decide.{ℕ_discrete}
use native.Mathlib.Omega.{arith}
use text.Mathlib.Text.{◌==◌ as str_eq}
use text.Mathlib.TextEquality.{eq_iff}

abbrev pub ltb : ℕ → ℕ → Bool
ltb a b = elim (compare a b) [ Ordering.lt ↦ true | _ ↦ false ]

abbrev pub leb : ℕ → ℕ → Bool
leb a b = elim (compare a b) [ Ordering.gt ↦ false | _ ↦ true ]

infix 1 if◌then◌else◌
abbrev pub if◌then◌else◌ {ℓ} : {A : Type ℓ} → Bool → A → A → A
if true then x else y = x
if false then x else y = y

pub Bool-cases : (b : Bool) → (b ≡ true) ⊎ (b ≡ false)
Bool-cases true = inl refl
Bool-cases false = inr refl

pub Option-cases {ℓ} : {A : Type ℓ} (o : Option A) → (o ≡ none) ⊎ ((a : A) × (o ≡ some a))
Option-cases none = inl refl
Option-cases (some a) = inr (a, refl)

-- Python's `bytes`: each item is below 256 where that matters.
abbrev pub Bytes : Type 0
Bytes = List ℕ

-- The code points of a text: its bytes, if it is ASCII.
abbrev pub codes : String → Bytes
codes String.[] = []
codes (String.◌∷◌ c s) = code c ∷ codes s

unfoldable pub nat_discrete : Discrete ℕ
unfolding ℕ_discrete
nat_discrete a b = ℕ_discrete a b

unfoldable pub bytes_discrete : Discrete Bytes
unfolding nat_discrete
bytes_discrete = hlevel nat_discrete

decide_by : (a b : String) (t : Bool) → str_eq a b ≡ t → Dec (a ≡ b)
decide_by a b true e = yes ((eq_iff a b).0 e)
decide_by a b false e = no (λ p. ground (arith, (eq_iff a b).1 p))

unfoldable pub string_discrete : Discrete String
unfolding decide_by
string_discrete a b = decide_by a b (str_eq a b) refl

-- Equality with `==` of every type that has one.
pub record Eq {ℓ} (A : Type ℓ) : Type ℓ where
  pub discrete : Discrete A

infix 50 ◌==◌
abbrev pub ◌==◌ {ℓ} : {A : Type ℓ} ⦃e : Eq A⦄ → A → A → Bool
◌==◌ ⦃e⦄ a b = elim (e.discrete a b) [ yes _ ↦ true | no _ ↦ false ]

instance abbrev pub nat_eq : Eq ℕ
nat_eq = record { discrete = nat_discrete }

instance abbrev pub bytes_eq : Eq Bytes
bytes_eq = record { discrete = bytes_discrete }

instance abbrev pub string_eq : Eq String
string_eq = record { discrete = string_discrete }
