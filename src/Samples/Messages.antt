-- ===== src/Samples/Messages.antt =====
-- The encoder of the protocol's messages that the tests use in place of asn1crypto's DER.
use kem_make.Base.{ℕ, zero, suc, Bytes, true, ◌≡◌, refl, Option, none, some, [], ◌∷◌}
use kem_make.Wire.{Asn1, RoundTrips}
use kem_make.Wire.Algorithms.{AlgorithmIdentifier}
use kem_make.Wire.Messages.{
  Integer, pos, negsuc, KemPublicKey, KemCiphertext, KeyId, SessionInitRequest, SessionInitResponse,
  SessionCompletionRequest, SessionCompletionResponse, Message, MakePayload, MakeMessage,
  session_init_request, session_init_response, session_completion_request,
  session_completion_response, message,
}
use kem_make.Samples.Encoder.{
  Encoder, token, octets, pair, represented, list, option, take_as, der, der-RoundTrips,
}
use kem_make.Samples.Text.{char_text}

abbrev to_integer : ℕ × ℕ → Integer
to_integer (zero, n) = pos n
to_integer (suc k, n) = negsuc n

abbrev of_integer : Integer → ℕ × ℕ
of_integer (pos n) = (0, n)
of_integer (negsuc n) = (1, n)

pub integer-back : (i : Integer) → to_integer (of_integer i) ≡ i
integer-back (pos n) = refl
integer-back (negsuc n) = refl

pub integer : Encoder Integer
integer = represented to_integer of_integer integer-back (pair token token)

identifier : Encoder AlgorithmIdentifier
identifier =
    represented (λ p. record { algorithm = p.0; parameters = p.1 })
      (λ a. (a.algorithm, a.parameters)) (λ a. refl) (pair char_text (option octets))

pub public_key : Encoder KemPublicKey
unfolding identifier
public_key =
    represented (λ p. record { algorithm = p.0; public_key = p.1 })
      (λ a. (a.algorithm, a.public_key)) (λ a. refl) (pair identifier octets)

ciphertext : Encoder KemCiphertext
unfolding identifier
ciphertext =
    represented (λ p. record { algorithm = p.0; ciphertext = p.1 })
      (λ a. (a.algorithm, a.ciphertext)) (λ a. refl) (pair identifier octets)

pub key_id : Encoder KeyId
unfolding identifier
key_id =
    represented (λ p. record { hash_algorithm = p.0; key_hash = p.1 })
      (λ a. (a.hash_algorithm, a.key_hash)) (λ a. refl) (pair identifier octets)

init_request : Encoder SessionInitRequest
unfolding ciphertext key_id public_key
init_request =
    represented
      (λ p. record {
        ct1 = p.0.0;
        key_id_b = p.0.1;
        pk_a_star = p.1.0;
        key_id_a = p.1.1.0;
        acceptable_aeads = p.1.1.1;
      })
      (λ a. ((a.ct1, a.key_id_b), (a.pk_a_star, (a.key_id_a, a.acceptable_aeads)))) (λ a. refl)
      (pair (pair ciphertext key_id) (pair public_key (pair key_id (list char_text))))

init_response : Encoder SessionInitResponse
unfolding ciphertext public_key
init_response =
    represented
      (λ p. record {
        pk_b_star = p.0.0;
        ct2 = p.0.1;
        ct3 = p.1.0;
        n_b = p.1.1.0;
        chosen_aead = p.1.1.1;
      })
      (λ a. ((a.pk_b_star, a.ct2), (a.ct3, (a.n_b, a.chosen_aead)))) (λ a. refl)
      (pair (pair public_key ciphertext) (pair ciphertext (pair octets char_text)))

completion_request : Encoder SessionCompletionRequest
unfolding ciphertext
completion_request =
    represented (λ p. record { c_m = p.0; ct4 = p.1.0; n_a = p.1.1 }) (λ a. (a.c_m, (a.ct4, a.n_a)))
      (λ a. refl) (pair octets (pair ciphertext octets))

completion_response : Encoder SessionCompletionResponse
completion_response =
    represented (λ p. record { h_m = p.0; m = p.1 }) (λ a. (a.h_m, a.m)) (λ a. refl)
      (pair octets (option octets))

plain_message : Encoder Message
unfolding integer
plain_message =
    represented (λ p. record { seq = p.0; m = p.1 }) (λ a. (a.seq, a.m)) (λ a. refl)
      (pair integer octets)

unfoldable pub put_payload : MakePayload → Bytes → Bytes
unfolding init_request init_response completion_request completion_response plain_message
put_payload (session_init_request a) rest = 0 ∷ init_request.put a rest
put_payload (session_init_response a) rest = 1 ∷ init_response.put a rest
put_payload (session_completion_request a) rest = 2 ∷ completion_request.put a rest
put_payload (session_completion_response a) rest = 3 ∷ completion_response.put a rest
put_payload (message a) rest = 4 ∷ plain_message.put a rest

unfoldable pub take_payload : Bytes → Option (MakePayload × Bytes)
unfolding init_request init_response completion_request completion_response plain_message
take_payload [] = none
take_payload (zero ∷ l) = take_as session_init_request (init_request.take l)
take_payload (suc zero ∷ l) = take_as session_init_response (init_response.take l)
take_payload (suc (suc zero) ∷ l) = take_as session_completion_request (completion_request.take l)
take_payload (suc (suc (suc zero)) ∷ l) =
    take_as session_completion_response (completion_response.take l)
take_payload (suc (suc (suc (suc n))) ∷ l) = take_as message (plain_message.take l)

pub payload-law :
    (p : MakePayload) (rest : Bytes) → take_payload (put_payload p rest) ≡ some (p, rest)
unfolding put_payload take_payload
payload-law (session_init_request a) rest = rw (init_request.law a rest)
payload-law (session_init_response a) rest = rw (init_response.law a rest)
payload-law (session_completion_request a) rest = rw (completion_request.law a rest)
payload-law (session_completion_response a) rest = rw (completion_response.law a rest)
payload-law (message a) rest = rw (plain_message.law a rest)

payload : Encoder MakePayload
unfolding put_payload take_payload
payload = record { put = put_payload; take = take_payload; law = payload-law }

make_message : Encoder MakeMessage
unfolding payload integer
make_message =
    represented (λ p. record { version = p.0; cid = p.1.0; payload = p.1.1 })
      (λ a. (a.version, (a.cid, a.payload))) (λ a. refl) (pair integer (pair octets payload))

-- The stand-in for asn1crypto; it takes every text for an OID.
unfoldable pub sample_asn1 : Asn1
unfolding make_message public_key ciphertext completion_request key_id
sample_asn1 = record {
  kem_public_key = der public_key;
  kem_ciphertext = der ciphertext;
  completion_request = der completion_request;
  make_message = der make_message;
  dump_key_id = λ k. key_id.put k [];
  is_oid = λ o. true;
}

pub sample-RoundTrips : RoundTrips sample_asn1.make_message
unfolding sample_asn1
sample-RoundTrips = der-RoundTrips make_message

pub sample_key-RoundTrips : RoundTrips sample_asn1.kem_public_key
unfolding sample_asn1
sample_key-RoundTrips = der-RoundTrips public_key

pub sample_ciphertext-RoundTrips : RoundTrips sample_asn1.kem_ciphertext
unfolding sample_asn1
sample_ciphertext-RoundTrips = der-RoundTrips ciphertext
