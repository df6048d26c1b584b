-- ===== src/Wire/Tests.antt =====
-- The messages on the wire, at concrete inputs.
use kem_make.Base.{
  String, Bytes, ◌≡◌, ◌≢◌, refl, ap, sym, Option, none, some, [], ◌∷◌, length, ◌↔◌, ◌⊎◌, inl,
  nat_discrete, true,
}
use kem_make.Errors.{Error, ok, err, is_value_error}
use kem_make.Wire.{
  dump_message, load_message, load_public_key, load_ciphertext, build_public_key,
  build_completion_request, with_algorithm, build_message, validate_cid, validate_payload,
  validate_c_m,
}
use kem_make.Wire.Algorithms.{
  kem_alg, mlkem_oid, oid_to_level, mlkem_pk_len, aead_name, aead_oid, oid_to_level-mlkem_oid,
  aead_name-iff_aead_oid,
}
use kem_make.Wire.Messages.{
  KemPublicKey, KemCiphertext, MakeMessage, SessionCompletionRequest, message, pos,
}
use kem_make.Wire.Canonical.{
  IsSendable, load_message_canonical, load_message_exact, load_message-encode, load-dump-build,
}
use kem_make.Wire.Lengths.{
  IsKey, IsCiphertext, build_public_key-IsKey, build_public_key_total, load_public_key_iff,
  load_ciphertext_iff, completion_request_nonempty,
}
use kem_make.Samples.Messages.{
  sample_asn1, sample-RoundTrips, sample_key-RoundTrips, sample_ciphertext-RoundTrips,
}
use kem_make.Samples.Backend.{repeat, length-repeat}

abbrev cid : Bytes
cid = 9 ∷ 0 ∷ 0 ∷ 0 ∷ 0 ∷ 0 ∷ 0 ∷ 0 ∷ 0 ∷ 0 ∷ 0 ∷ 0 ∷ 0 ∷ 0 ∷ 0 ∷ 0 ∷ []

abbrev hello : MakeMessage
hello = record {
  version = pos 0;
  cid = cid;
  payload = message (record { seq = pos 1; m = 104 ∷ 105 ∷ [] });
}

-- The envelope with a cid of 15 bytes, which the encoder writes all the same.
abbrev stunted : MakeMessage
stunted = record hello { cid = 0 ∷ 0 ∷ 0 ∷ 0 ∷ 0 ∷ 0 ∷ 0 ∷ 0 ∷ 0 ∷ 0 ∷ 0 ∷ 0 ∷ 0 ∷ 0 ∷ 0 ∷ [] }

hello_loads : load_message sample_asn1 (sample_asn1.make_message.encode hello) ≡ ok hello
hello_loads = (load_message-encode sample_asn1 sample-RoundTrips hello).1 (refl, tt)

load_message-encode_example :
    (load_message sample_asn1 (sample_asn1.make_message.encode stunted) ≡ ok stunted)
    ↔ IsSendable stunted
load_message-encode_example = load_message-encode sample_asn1 sample-RoundTrips stunted

load_message_canonical_example :
    (dump_message sample_asn1 hello ≡ ok (sample_asn1.make_message.encode hello)) × IsSendable hello
load_message_canonical_example =
    load_message_canonical sample_asn1 (sample_asn1.make_message.encode hello) hello hello_loads

load_message_exact_example :
    let encoded = sample_asn1.make_message.encode hello in
    ((msg : MakeMessage)
      → (load_message sample_asn1 encoded ≡ ok msg) ↔ (
          (sample_asn1.make_message.parse encoded ≡ some msg)
          × (sample_asn1.make_message.encode msg ≡ encoded)
          × IsSendable msg))
    × ((e : Error)
        → load_message sample_asn1 encoded ≡ err e
        → ((sample_asn1.make_message.parse encoded ≡ none)
            × (e ≡ sample_asn1.make_message.refusal encoded))
          ⊎ (is_value_error e ≡ true))
load_message_exact_example = load_message_exact sample_asn1 (sample_asn1.make_message.encode hello)

hello_built : build_message cid hello.payload ≡ ok hello
unfolding build_message validate_cid nat_discrete
hello_built = refl

hello_dumped : dump_message sample_asn1 hello ≡ ok (sample_asn1.make_message.encode hello)
unfolding dump_message validate_payload
hello_dumped = refl

load-dump-build_example :
    load_message sample_asn1 (sample_asn1.make_message.encode hello) ≡ ok hello
load-dump-build_example =
    load-dump-build sample_asn1 sample-RoundTrips cid hello.payload hello
      (sample_asn1.make_message.encode hello) hello_built hello_dumped

-- A key of ML-KEM-768 with the bytes 5, ..., 5.
abbrev fives : Bytes
fives = repeat 1184 5

abbrev key : KemPublicKey
key = with_algorithm "2.16.840.1.101.3.4.4.2" fives

long_enough : mlkem_pk_len 768 ≡ some (length fives)
unfolding mlkem_pk_len nat_discrete
long_enough = ap some (sym (length-repeat 1184 5))

build_public_key_total_example :
    (name : String) × (build_public_key fives (some 768) none ≡ ok (with_algorithm name fives))
    × (oid_to_level name ≡ some 768)
build_public_key_total_example = build_public_key_total fives 768 none long_enough

build_public_key-IsKey_example :
    let (name, built, known) = build_public_key_total_example in
    IsKey (with_algorithm name fives) × (fives ≡ fives) × (◌≡◌ {A = Option Bytes} none none)
unfolding kem_alg
build_public_key-IsKey_example =
    let (name, built, known) = build_public_key_total_example in
    build_public_key-IsKey fives (some 768) none (with_algorithm name fives) built

abbrev short : KemCiphertext
short = record { algorithm = kem_alg "2.16.840.1.101.3.4.4.2"; ciphertext = [] }

load_ciphertext_iff_example :
    (load_ciphertext sample_asn1 [] ≡ ok short)
    ↔ ((sample_asn1.kem_ciphertext.encode short ≡ []) × IsCiphertext short)
load_ciphertext_iff_example = load_ciphertext_iff sample_asn1 sample_ciphertext-RoundTrips [] short

load_public_key_iff_example :
    (load_public_key sample_asn1 (sample_asn1.kem_public_key.encode key) ≡ ok key)
    ↔ ((sample_asn1.kem_public_key.encode key ≡ sample_asn1.kem_public_key.encode key) × IsKey key)
load_public_key_iff_example =
    load_public_key_iff sample_asn1 sample_key-RoundTrips (sample_asn1.kem_public_key.encode key)
      key

abbrev request : SessionCompletionRequest
request = record { c_m = 1 ∷ []; ct4 = short; n_a = 2 ∷ [] }

request_built : build_completion_request (1 ∷ []) short (2 ∷ []) ≡ ok request
unfolding build_completion_request validate_c_m nat_discrete
request_built = refl

completion_request_nonempty_example : length request.c_m ≢ 0
completion_request_nonempty_example =
    completion_request_nonempty sample_asn1 request [] (inl request_built)

level_named : mlkem_oid 1024 ≡ some "2.16.840.1.101.3.4.4.3"
unfolding mlkem_oid nat_discrete
level_named = refl

is_level_1024 : oid_to_level "2.16.840.1.101.3.4.4.3" ≡ some 1024
is_level_1024 = oid_to_level-mlkem_oid 1024 "2.16.840.1.101.3.4.4.3" level_named

is_aead_named :
    (aead_name "2.16.840.1.101.3.4.1.46" ≡ some "aes256-gcm")
    ↔ (aead_oid "aes256-gcm" ≡ some "2.16.840.1.101.3.4.1.46")
is_aead_named = aead_name-iff_aead_oid "aes256-gcm" "2.16.840.1.101.3.4.1.46"
