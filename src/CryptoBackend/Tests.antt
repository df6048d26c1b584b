-- ===== src/CryptoBackend/Tests.antt =====
-- The checks of the backend on a package whose operations pass the text through.
use kem_make.Base.{none, ◌≡◌, ◌↔◌, some, [], ◌∷◌}
use kem_make.Errors.{ok}
use kem_make.CryptoBackend.{Primitives, zeros, check_backend}
use kem_make.CryptoBackend.Checks.{Agrees, Opens, Derives, check_backend_iff}

abbrev plain : Primitives
plain = record {
  generate = λ level. some (5 ∷ []);
  public_bytes = λ level seed. some seed;
  encapsulate = λ level pk. some (1 ∷ [], 2 ∷ []);
  decapsulate = λ level seed ct. some (1 ∷ []);
  generate_key = λ name bits. some [];
  encrypt = λ name key nonce text. some text;
  decrypt = λ name key nonce ct. some ct;
  hkdf = λ n info ikm. some (zeros n);
}

check_backend_iff_example : (check_backend plain ≡ ok tt) ↔ (
    Agrees plain 768
    × Agrees plain 1024
    × Opens plain "AES-256-GCM" (some 256)
    × Opens plain "ChaCha20-Poly1305" none
    × Derives plain)
check_backend_iff_example = check_backend_iff plain
