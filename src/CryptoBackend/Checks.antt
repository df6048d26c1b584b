-- ===== src/CryptoBackend/Checks.antt =====
-- What a passed check says of the installed package.
use kem_make.Base.{
  ℕ, String, Bytes, ◌≡◌, ◌↔◌, string_discrete, string_eq, Option, none, some, arith, length,
  Option-cases, inl, inr,
}
use kem_make.Errors.{ok}
use kem_make.CryptoBackend.{
  Primitives, check_text, zeros, check_each, try_mlkem, check_mlkem, try_aead, check_aead,
  check_hkdf, check_backend, bit_length,
}

-- ML-KEM at a level: what a generated key decapsulates is the secret that was encapsulated for its
-- public key. An AEAD: a generated key, of the bits asked for, opens the text that it sealed. HKDF
-- gives as many bytes as are asked for.
abbrev pub Agrees : Primitives → ℕ → Type 0
Agrees p level =
    (seed : Bytes) × (public : Bytes) × (secret : Bytes) × (ciphertext : Bytes) × (p.generate level
      ≡ some seed)
    × (p.public_bytes level seed ≡ some public)
    × (p.encapsulate level public ≡ some (secret, ciphertext))
    × (p.decapsulate level seed ciphertext ≡ some secret)

abbrev pub Opens : Primitives → String → Option ℕ → Type 0
Opens p name bits =
    (key : Bytes) × (sealed : Bytes) × (p.generate_key name bits ≡ some key)
    × (p.encrypt name key (zeros 12) check_text ≡ some sealed)
    × (p.decrypt name key (zeros 12) sealed ≡ some check_text)

abbrev pub Derives : Primitives → Type 0
Derives p =
    (derived : Bytes) × (p.hkdf 32 check_text (zeros 32) ≡ some derived) × (length derived ≡ 32)

module _ (p : Primitives) where
  check_mlkem-Agrees : (level : ℕ) → (check_mlkem p level ≡ ok tt) ↔ Agrees p level
  unfolding check_mlkem try_mlkem
  check_mlkem-Agrees level = (
    λ h. elim (Option-cases (p.generate level)) [
      | inl absent ↦ absurd (ground arith)
      | inr (seed, made) ↦ elim (Option-cases (p.public_bytes level seed)) [
        | inl absent ↦ absurd (ground arith)
        | inr (public, shown) ↦ elim (Option-cases (p.encapsulate level public)) [
          | inl absent ↦ absurd (ground arith)
          | inr ((secret, ciphertext), sealed) ↦
              elim (Option-cases (p.decapsulate level seed ciphertext)) [
                | inl absent ↦ absurd (ground arith)
                | inr (recovered, opened) ↦
                    (seed, public, secret, ciphertext, made, shown, sealed, ground arith)
              ]
        ]
      ]
    ],
    λ (seed, public, secret, ciphertext, made, shown, sealed, opened). ground arith,
  )

  check_aead-Opens :
      (name : String) → (check_aead p name ≡ ok tt) ↔ Opens p name (bit_length p name)
  unfolding check_aead try_aead
  check_aead-Opens name = (
    λ h. elim (Option-cases (p.generate_key name (bit_length p name))) [
      | inl absent ↦ absurd (ground arith)
      | inr (key, made) ↦ elim (Option-cases (p.encrypt name key (zeros 12) check_text)) [
        | inl absent ↦ absurd (ground arith)
        | inr (sealed, closed) ↦ (key, sealed, made, closed, ground arith)
      ]
    ],
    λ (key, sealed, made, closed, opened). ground arith,
  )

  check_hkdf-Derives : (check_hkdf p ≡ ok tt) ↔ Derives p
  unfolding check_hkdf
  check_hkdf-Derives = (
    λ h. elim (Option-cases (p.hkdf 32 check_text (zeros 32))) [
      | inl absent ↦ absurd (ground arith)
      | inr (derived, found) ↦ (derived, found, ground arith)
    ],
    λ (derived, found, sized). ground arith,
  )

  -- The check of the backend passes exactly if both levels of ML-KEM give both sides one secret,
  -- both AEAD algorithms open what they sealed, and HKDF gives 32 bytes where 32 are asked for.
  pub check_backend_iff : (check_backend p ≡ ok tt) ↔ (
      Agrees p 768
      × Agrees p 1024
      × Opens p "AES-256-GCM" (some 256)
      × Opens p "ChaCha20-Poly1305" none
      × Derives p)
  unfolding check_backend check_each string_discrete
  check_backend_iff = (
    λ h. (
      (check_mlkem-Agrees 768).0 (ground arith),
      (check_mlkem-Agrees 1024).0 (ground arith),
      (check_aead-Opens "AES-256-GCM").0 (ground arith),
      (check_aead-Opens "ChaCha20-Poly1305").0 (ground arith),
      check_hkdf-Derives.0 (ground arith),
    ),
    λ (a, b, c, d, e). ground (
      arith,
      (check_mlkem-Agrees 768).1 a,
      (check_mlkem-Agrees 1024).1 b,
      (check_aead-Opens "AES-256-GCM").1 c,
      (check_aead-Opens "ChaCha20-Poly1305").1 d,
      check_hkdf-Derives.1 e,
    ),
  )
