-- ===== src/Wire/Canonical.antt =====
-- The envelope on the wire: what `MakeMessage.load` accepts, and that it reads back what was built.
use kem_make.Base.{
  Bytes, none, some, ◌⊎◌, bytes_eq, true, ◌≡◌, ◌≢◌, ◌↔◌, refl, length, arith, Option-cases, inl,
  inr,
}
use kem_make.Errors.{Error, ok, err, is_value_error}
use kem_make.Wire.Messages.{
  MakePayload, MakeMessage, session_init_request, session_init_response, session_completion_request,
  session_completion_response, message,
}
use kem_make.Wire.{
  Asn1, RoundTrips, require_der, validate_c_m, validate_cid, validate_payload, build_message,
  dump_message, load_message,
}

-- A message that may be sent: its cid has 16 bytes, and a false-start payload is not empty.
abbrev pub HasPayload : MakePayload → Type 0
HasPayload (session_completion_request req) = length req.c_m ≢ 0
HasPayload _ = Unit

abbrev pub IsSendable : MakeMessage → Type 0
IsSendable msg = (length msg.cid ≡ 16) × HasPayload msg.payload

validate_payload-cases :
    (p : MakePayload)
    → ((e : Error) → validate_payload p ≡ err e → is_value_error e ≡ true)
      × (validate_payload p ≡ ok tt → HasPayload p)
      × (HasPayload p → validate_payload p ≡ ok tt)
unfolding validate_payload validate_c_m
validate_payload-cases (session_completion_request req) =
    (λ e h. ground arith, λ h. ground arith, λ h. ground arith)
validate_payload-cases (session_init_request req) = (λ e h. cc, λ h. tt, λ h. refl)
validate_payload-cases (session_init_response req) = (λ e h. cc, λ h. tt, λ h. refl)
validate_payload-cases (session_completion_response req) = (λ e h. cc, λ h. tt, λ h. refl)
validate_payload-cases (message req) = (λ e h. cc, λ h. tt, λ h. refl)

module _ (asn1 : Asn1) where
  -- `MakeMessage.load` accepts only the bytes that the message it returns dumps to, and only a
  -- message with a cid of 16 bytes and no empty false-start payload.
  pub load_message_canonical :
      (encoded : Bytes) (msg : MakeMessage)
      → load_message asn1 encoded ≡ ok msg
      → (dump_message asn1 msg ≡ ok encoded) × IsSendable msg
  unfolding load_message dump_message require_der validate_cid
  load_message_canonical encoded msg h = ground (arith, (validate_payload-cases msg.payload).1)

  -- So no message has two accepted encodings.
  pub load_message_injective :
      (a b : Bytes) (msg : MakeMessage)
      → load_message asn1 a ≡ ok msg
      → load_message asn1 b ≡ ok msg
      → a ≡ b
  load_message_injective a b msg p q =
      cc ((load_message_canonical a msg p).0, (load_message_canonical b msg q).0)

  -- `MakeMessage.load` returns a message exactly if asn1crypto reads it from the bytes, dumps it to
  -- the same bytes, its cid has 16 bytes and it has no empty false-start payload. What it raises
  -- otherwise is asn1crypto's own exception, where that reads nothing, or a ValueError.
  pub load_message_exact :
      (encoded : Bytes)
      → ((msg : MakeMessage)
          → (load_message asn1 encoded ≡ ok msg) ↔ (
              (asn1.make_message.parse encoded ≡ some msg)
              × (asn1.make_message.encode msg ≡ encoded)
              × IsSendable msg))
        × ((e : Error)
            → load_message asn1 encoded ≡ err e
            → ((asn1.make_message.parse encoded ≡ none) × (e ≡ asn1.make_message.refusal encoded))
              ⊎ (is_value_error e ≡ true))
  unfolding load_message dump_message require_der validate_cid
  load_message_exact encoded = (
    λ msg. (
      λ h. ground (arith, (validate_payload-cases msg.payload).1),
      λ (read, same, sendable). ground (arith, (validate_payload-cases msg.payload).2),
    ),
    λ e h. elim (Option-cases (asn1.make_message.parse encoded)) [
      | inl absent ↦ inl (absent, ground arith)
      | inr (msg, found) ↦ inr (ground (arith, (validate_payload-cases msg.payload).0 e))
    ],
  )

  -- With asn1crypto's round trip, `MakeMessage.load` reads back exactly the messages whose cid has
  -- 16 bytes and whose false-start payload is not empty; no other part of a message matters, so
  -- the lengths of the keys and ciphertexts in it do not.
  pub load_message-encode :
      RoundTrips asn1.make_message
      → (msg : MakeMessage)
      → (load_message asn1 (asn1.make_message.encode msg) ≡ ok msg) ↔ IsSendable msg
  unfolding load_message dump_message require_der validate_cid
  load_message-encode law msg = (
    λ h. (load_message_canonical (asn1.make_message.encode msg) msg h).1,
    λ h. ground (arith, law msg, (validate_payload-cases msg.payload).2),
  )

  -- What `MakeMessage.build` builds and `dump` dumps, `load` reads back as it was.
  pub load-dump-build :
      RoundTrips asn1.make_message
      → (cid : Bytes) (payload : MakePayload) (msg : MakeMessage) (encoded : Bytes)
      → build_message cid payload ≡ ok msg
      → dump_message asn1 msg ≡ ok encoded
      → load_message asn1 encoded ≡ ok msg
  unfolding build_message validate_cid dump_message
  load-dump-build law cid payload msg encoded b d =
      ground (arith, (load_message-encode law msg).1, (validate_payload-cases msg.payload).1)
