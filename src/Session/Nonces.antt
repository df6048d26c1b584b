-- ===== src/Session/Nonces.antt =====
-- The nonces of one direction of traffic, `_nonce_for_seq`.
use Prim.Native.Nat.{bit_xor, bit_xor-bitwise, digits, differ}
use kem_make.Base.{
  last_cancel, ℕ, zero, suc, ◌+◌, ◌*◌, ◌/◌, ◌%◌, ◌^◌, ◌<◌, Bytes, ◌≡◌, refl, ap, sym, ◌∙◌, [], ◌∷◌,
  length, arith, ltb, length-append, Bool-cases, inl, inr,
}
use kem_make.Errors.{ok}
use kem_make.Session.Backend.{to_bytes, xor_bytes, nonce_for_seq}

-- Of two binary digits, and below two again.
differ-injective : (a b c : ℕ) → a < 2 → b < 2 → c < 2 → differ a b ≡ differ a c → b ≡ c
differ-injective zero b c ha hb hc e = e
differ-injective (suc a) zero zero ha hb hc e = refl
differ-injective (suc zero) (suc b) (suc c) ha hb hc e = ap suc e
differ-injective (suc zero) zero (suc c) ha hb hc e = absurd (omega (arith, e))
differ-injective (suc zero) (suc b) zero ha hb hc e = absurd (omega (arith, e))
differ-injective (suc (suc a)) (suc b) c ha hb hc e = absurd (omega arith)
differ-injective (suc (suc a)) zero (suc c) ha hb hc e = absurd (omega arith)

differ_small : (a b : ℕ) → a < 2 → b < 2 → differ a b < 2
differ_small zero b ha hb = hb
differ_small (suc zero) zero ha hb = omega arith
differ_small (suc zero) (suc b) ha hb = omega arith
differ_small (suc (suc a)) b ha hb = absurd (omega arith)

digits-injective :
    (n a b c : ℕ) → digits (λ x. x) differ n a b ≡ digits (λ x. x) differ n a c → b ≡ c
digits-injective zero a b c e = e
digits-injective (suc n) zero b c e = e
digits-injective (suc n) (suc a) b c e =
    let x = digits (λ x. x) differ n (suc a / 2) (b / 2) in
    let y = digits (λ x. x) differ n (suc a / 2) (c / 2) in
    let d = differ (suc a % 2) (b % 2) in
    let f = differ (suc a % 2) (c % 2) in
    let small : d < 2 = differ_small (suc a % 2) (b % 2) (omega arith) (omega arith) in
    let small_too : f < 2 = differ_small (suc a % 2) (c % 2) (omega arith) (omega arith) in
    let sum : x * 2 + d ≡ y * 2 + f = e in
    let halves =
      digits-injective n (suc a / 2) (b / 2) (c / 2) (omega (arith, sum, small, small_too)) in
    let rests =
      differ-injective (suc a % 2) (b % 2) (c % 2) (omega arith) (omega arith) (omega arith)
        (omega (arith, sum, small, small_too)) in
    omega (arith, halves, rests)

bit_xor-injective : (a b c : ℕ) → bit_xor a b ≡ bit_xor a c → b ≡ c
bit_xor-injective a b c e =
    digits-injective a a b c (sym (bit_xor-bitwise a b) ∙ (e ∙ bit_xor-bitwise a c))

-- Bytes that xor alike with one text are the same.
xor_bytes-injective :
    (iv xs ys : Bytes)
    → length xs ≡ length iv
    → length ys ≡ length iv
    → xor_bytes iv xs ≡ xor_bytes iv ys
    → xs ≡ ys
unfolding xor_bytes
xor_bytes-injective [] [] [] lx ly e = refl
xor_bytes-injective [] (x ∷ xs) ys lx ly e = absurd (omega (arith, lx))
xor_bytes-injective [] [] (y ∷ ys) lx ly e = absurd (omega (arith, ly))
xor_bytes-injective (i ∷ iv) [] ys lx ly e = absurd (omega (arith, lx))
xor_bytes-injective (i ∷ iv) (x ∷ xs) [] lx ly e = absurd (omega (arith, ly))
xor_bytes-injective (i ∷ iv) (x ∷ xs) (y ∷ ys) lx ly e =
    ground (arith, e, lx, ly, bit_xor-injective i x y, xor_bytes-injective iv xs ys)

length-to_bytes : (k n : ℕ) → length (to_bytes k n) ≡ k
unfolding to_bytes
length-to_bytes zero n = refl
length-to_bytes (suc k) n =
    ground
      (arith, length-append (to_bytes k (n / 256)) ((n % 256) ∷ []), length-to_bytes k (n / 256))

shorter : (k n : ℕ) → n < 256 ^ suc k → n / 256 < 256 ^ k
shorter k n h = omega (arith, h)

to_bytes-injective : (k m n : ℕ) → m < 256 ^ k → n < 256 ^ k → to_bytes k m ≡ to_bytes k n → m ≡ n
unfolding to_bytes
to_bytes-injective zero m n hm hn e = omega arith
to_bytes-injective (suc k) m n hm hn e =
    let (front, last) =
      last_cancel (to_bytes k (m / 256)) (to_bytes k (n / 256)) (m % 256) (n % 256) e in
    let rest = to_bytes-injective k (m / 256) (n / 256) (shorter k m hm) (shorter k n hn) front in
    omega (arith, rest, last)

-- Under one IV, two sequence numbers never have the same nonce.
pub nonce_for_seq-injective :
    (iv nonce : Bytes) (seq other : ℕ)
    → nonce_for_seq iv seq ≡ ok nonce
    → nonce_for_seq iv other ≡ ok nonce
    → seq ≡ other
unfolding nonce_for_seq
nonce_for_seq-injective iv nonce seq other e f = elim (Bool-cases (ltb seq (256 ^ length iv))) [
  | inr over ↦ absurd (ground (arith, e, over))
  | inl within ↦ elim (Bool-cases (ltb other (256 ^ length iv))) [
    | inr over ↦ absurd (ground (arith, f, over))
    | inl also ↦
        to_bytes-injective (length iv) seq other (ground (arith, within)) (ground (arith, also)) (
          xor_bytes-injective iv (to_bytes (length iv) seq) (to_bytes (length iv) other)
            (length-to_bytes (length iv) seq) (length-to_bytes (length iv) other)
            (ground (arith, e, f, within, also)))
  ]
]
