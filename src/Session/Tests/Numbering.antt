-- ===== src/Session/Tests/Numbering.antt =====
-- Nonces at concrete inputs.
use kem_make.Base.{ℕ, ◌≡◌, refl, [], ◌∷◌}
use kem_make.Errors.{ok}
use kem_make.Session.Backend.{to_bytes, xor_bytes, nonce_for_seq}
use kem_make.Session.Nonces.{nonce_for_seq-injective}

-- the nonce of message 258
is_nonce : nonce_for_seq (7 ∷ 1 ∷ 3 ∷ []) 258 ≡ ok (7 ∷ 0 ∷ 1 ∷ [])
unfolding nonce_for_seq to_bytes xor_bytes
is_nonce = refl

nonce_for_seq-injective_example : ◌≡◌ {A = ℕ} 258 258
nonce_for_seq-injective_example =
    nonce_for_seq-injective (7 ∷ 1 ∷ 3 ∷ []) (7 ∷ 0 ∷ 1 ∷ []) 258 258 is_nonce is_nonce
