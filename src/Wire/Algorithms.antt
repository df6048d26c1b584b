-- ===== src/Wire/Algorithms.antt =====
-- src/kem_make/bottom.py: the tables of algorithm identifiers and lengths, and their lookups.
use text.Mathlib.TextEquality.{eq_iff}
use kem_make.Base.{
  ℕ, String, Bytes, Option, none, some, ◌==◌, nat_eq, string_eq, if◌then◌else◌, ◌≡◌, ◌≢◌, ◌↔◌, sym,
  arith,
}

-- MLKEM_OIDS
unfoldable pub mlkem_oid : ℕ → Option String
mlkem_oid level =
    if level == 768
    then some "2.16.840.1.101.3.4.4.2"
    else if level == 1024
    then some "2.16.840.1.101.3.4.4.3"
    else none

-- _OID_TO_LEVEL, the same pairs the other way round; session.py's table of that name keeps the
-- levels 768 and 1024, so it is this one
unfoldable pub oid_to_level : String → Option ℕ
oid_to_level oid =
    if oid == "2.16.840.1.101.3.4.4.2"
    then some 768
    else if oid == "2.16.840.1.101.3.4.4.3"
    then some 1024
    else none

-- MLKEM_PK_LEN
unfoldable pub mlkem_pk_len : ℕ → Option ℕ
mlkem_pk_len level = if level == 768 then some 1184 else if level == 1024 then some 1568 else none

-- MLKEM_CT_LEN
unfoldable pub mlkem_ct_len : ℕ → Option ℕ
mlkem_ct_len level = if level == 768 then some 1088 else if level == 1024 then some 1568 else none

abbrev pub cid_len : ℕ
cid_len = 16

-- AEAD_OIDS
unfoldable pub aead_oid : String → Option String
aead_oid name =
    if name == "aes256-gcm"
    then some "2.16.840.1.101.3.4.1.46"
    else if name == "chacha20-poly1305"
    then some "1.2.840.113549.1.9.16.3.18"
    else none

unfoldable pub aead_name : String → Option String
aead_name oid =
    if oid == "2.16.840.1.101.3.4.1.46"
    then some "aes256-gcm"
    else if oid == "1.2.840.113549.1.9.16.3.18"
    then some "chacha20-poly1305"
    else none

-- An `AlgorithmIdentifier`: its OID in dotted form, and the DER of its parameters if there are any.
pub record AlgorithmIdentifier : Type 0 where
  pub algorithm : String
  pub parameters : Option Bytes

unfoldable pub kem_alg : String → AlgorithmIdentifier
kem_alg oid = record { algorithm = oid; parameters = none }

kem_oids_ne : ◌≢◌ {A = String} "2.16.840.1.101.3.4.4.2" "2.16.840.1.101.3.4.4.3"
kem_oids_ne e = cc (sym ((eq_iff _ _).1 e))

aead_oids_ne : ◌≢◌ {A = String} "2.16.840.1.101.3.4.1.46" "1.2.840.113549.1.9.16.3.18"
aead_oids_ne e = cc (sym ((eq_iff _ _).1 e))

aead_names_ne : ◌≢◌ {A = String} "aes256-gcm" "chacha20-poly1305"
aead_names_ne e = cc (sym ((eq_iff _ _).1 e))

-- A level's OID leads back to the level.
pub oid_to_level-mlkem_oid :
    (level : ℕ) (oid : String) → mlkem_oid level ≡ some oid → oid_to_level oid ≡ some level
unfolding mlkem_oid oid_to_level
oid_to_level-mlkem_oid level oid h = ground (arith, kem_oids_ne)

-- A name and an OID of an AEAD algorithm belong together in the one table exactly when they do in
-- the other.
pub aead_name-iff_aead_oid :
    (name oid : String) → (aead_name oid ≡ some name) ↔ (aead_oid name ≡ some oid)
unfolding aead_oid aead_name
aead_name-iff_aead_oid name oid =
    (λ h. ground (arith, aead_names_ne), λ h. ground (arith, aead_oids_ne))
