-- ===== src/Session/Traffic.antt =====
-- Application payloads between two established sessions.
use kem_make.Base.{
  ℕ, ◌+◌, ◌≤◌, ◌<◌, ◌^◌, Bytes, String, Bool, true, false, ◌≡◌, ◌≢◌, refl, ap, ◌∙◌, none, some, [],
  ◌∷◌, ◌++◌, ◌⊎◌, inl, inr, arith, length,
}
use kem_make.Errors.{ok, err, handshake_failed}
use kem_make.Wire.Algorithms.{aead_oid, mlkem_oid}
use kem_make.Wire.Messages.{pos, MakePayload, Message, message}
use kem_make.Wire.{RoundTrips, dump_message, validate_payload}
use kem_make.Wire.Canonical.{load_message-encode}
use kem_make.Session.Backend.{Env, KeyLookup, Coins, SessionKeys}
use kem_make.Session.State.{Role, initiator, responder, established, Session, state_discrete}
use kem_make.Session.Handlers.{
  sending_seq, receiving_seq, sending_key, count_sent, count_received, send_established_payload,
  handle_established_message,
}
use kem_make.Session.Laws.{Laws, max_text, Sealing, encrypt_total}
use kem_make.Session.Handshake.Opening.{envelope, wire, wire-injective, build_message_lem}
use kem_make.Session.{process_incoming, process_loaded, process_message, dispatch}

abbrev pub peer : Role → Role
peer initiator = responder
peer responder = initiator

role_cases : (r : Role) → (r ≡ initiator) ⊎ (r ≡ responder)
role_cases initiator = inl refl
role_cases responder = inr refl

abbrev pub is_message : MakePayload → Bool
is_message (message m) = true
is_message _ = false

-- An established session that sends and the established session that gets what it sends: they
-- share the correlation id and the keys, and the counter of the direction. The receiver's last
-- handshake PDU is kept for comparison.
pub record InStep (env : Env) (role : Role) (aead : String) (cid : Bytes) (k : SessionKeys)
    (s t : Session) : Type 0 where
  pub role_s : s.role ≡ role
  pub role_t : t.role ≡ peer role
  pub state_t : t.state ≡ established
  pub cid_s : s.cid ≡ some cid
  pub cid_t : t.cid ≡ some cid
  pub sized : length cid ≡ 16
  pub keys_s : s.session_keys ≡ some k
  pub keys_t : t.session_keys ≡ some k
  pub named : aead_oid k.aead_name ≡ some aead
  pub key_sized : length (sending_key role k).0 ≡ 32
  pub iv_sized : length (sending_key role k).1 ≡ 12
  pub counted : sending_seq role s ≡ receiving_seq (peer role) t
  pub handshake : MakePayload
  pub handshake_kind : is_message handshake ≡ false
  pub last_t : t.last_received ≡ some (wire env.asn1 cid handshake)

module _ (env : Env) (keys : KeyLookup) (level : ℕ) (laws : Laws env.backend level) (oid : String)
    (known : mlkem_oid level ≡ some oid) (codec : RoundTrips env.asn1.make_message) (aead : String)
    (cid : Bytes) (k : SessionKeys) where
  sealing :
      (role : Role) (s t : Session) (payload : Bytes)
      → InStep env role aead cid k s t
      → sending_seq role s < 256 ^ 12
      → length payload ≤ max_text
      → Sealing env.backend k.aead_name
          (sending_key role k).0
          (sending_key role k).1
          (sending_seq role s)
          payload
          cid
  sealing role s t payload w below fits =
      encrypt_total env.backend level laws oid known k.aead_name aead (sending_key role k).0
        (sending_key role k).1 (sending_seq role s) payload cid w.named w.key_sized w.iv_sized below
        fits

  -- the PDU that carries a payload
  abbrev pub sealed_message : (role : Role) (s : Session) → Bytes → Message
  sealed_message role s sealed = record { seq = pos (sending_seq role s); m = sealed }

  abbrev pub pdu_of : Role → Session → Bytes → Bytes
  pdu_of role s sealed = wire env.asn1 cid (message (sealed_message role s sealed))

  message_sent :
      (role : Role) (s t : Session) (payload : Bytes)
      → (w : InStep env role aead cid k s t) → (below : sending_seq role s < 256 ^ 12)
      → (fits : length payload ≤ max_text)
      → send_established_payload env keys payload s ≡ (
        ok tt,
        record (count_sent role s) {
          pending_payload = none;
          outgoing_pdus =
              s.outgoing_pdus ++ pdu_of role s (sealing role s t payload w below fits).sealed ∷ [];
        },
      )
  unfolding send_established_payload dump_message validate_payload
  message_sent initiator s t payload w below fits =
      let z = sealing initiator s t payload w below fits in
      ground (
        arith,
        w,
        z.made,
        build_message_lem cid (message (sealed_message initiator s z.sealed)) w.sized,
      )
  message_sent responder s t payload w below fits =
      let z = sealing responder s t payload w below fits in
      ground (
        arith,
        w,
        z.made,
        build_message_lem cid (message (sealed_message responder s z.sealed)) w.sized,
      )

  -- a message of the session goes to its handler
  message_routed :
      (role : Role) (s t : Session) (m : Message) (coins : Coins) (now : ℕ)
      → InStep env role aead cid k s t
      → process_incoming env keys coins (wire env.asn1 cid (message m)) now t
        ≡ handle_established_message env keys m t
  unfolding process_incoming process_loaded process_message dispatch state_discrete
  message_routed role s t m coins now w = ground (
    arith,
    w,
    role_cases role,
    fresh,
    (load_message-encode env.asn1 codec (envelope cid (message m))).1 (w.sized, tt),
  )
    where
      fresh : wire env.asn1 cid (message m) ≢ wire env.asn1 cid w.handshake
      fresh e = cc (
        ap is_message (wire-injective env.asn1 cid (message m) w.handshake codec e),
        w.handshake_kind,
      )

  message_opened :
      (role : Role) (s t : Session) (payload : Bytes)
      → (w : InStep env role aead cid k s t) → (below : sending_seq role s < 256 ^ 12)
      → (fits : length payload ≤ max_text)
      → handle_established_message env keys
          (sealed_message role s (sealing role s t payload w below fits).sealed)
          t
        ≡ (
          ok tt,
          record (count_received (peer role) t) {
            outgoing_payloads = t.outgoing_payloads ++ payload ∷ [];
          },
        )
  unfolding handle_established_message
  message_opened initiator s t payload w below fits =
      ground (arith, w, (sealing initiator s t payload w below fits).opened)
  message_opened responder s t payload w below fits =
      ground (arith, w, (sealing responder s t payload w below fits).opened)

  message_refused :
      (role : Role) (s t : Session) (m : Message) (n : ℕ)
      → InStep env role aead cid k s t
      → m.seq ≡ pos n
      → n ≢ receiving_seq (peer role) t
      → handle_established_message env keys m t ≡ (err handshake_failed, t)
  unfolding handle_established_message
  message_refused initiator s t m n w numbered other = ground (arith, w)
  message_refused responder s t m n w numbered other = ground (arith, w)

  abbrev pub sent_by : Role → Session → Bytes → Session
  sent_by role s sealed = record (count_sent role s) {
    pending_payload = none;
    outgoing_pdus = s.outgoing_pdus ++ pdu_of role s sealed ∷ [];
  }

  abbrev pub got_by : Role → Session → Bytes → Session
  got_by role t payload = record (count_received (peer role) t) {
    outgoing_payloads = t.outgoing_payloads ++ payload ∷ [];
  }

  still_InStep :
      (role : Role) (s t : Session) (sealed payload : Bytes)
      → InStep env role aead cid k s t
      → InStep env role aead cid k (sent_by role s sealed) (got_by role t payload)
  still_InStep initiator s t sealed payload w = record {
    role_s = w.role_s;
    role_t = w.role_t;
    state_t = w.state_t;
    cid_s = w.cid_s;
    cid_t = w.cid_t;
    sized = w.sized;
    keys_s = w.keys_s;
    keys_t = w.keys_t;
    named = w.named;
    key_sized = w.key_sized;
    iv_sized = w.iv_sized;
    counted = ap (λ n. n + 1) w.counted;
    handshake = w.handshake;
    handshake_kind = w.handshake_kind;
    last_t = w.last_t;
  }
  still_InStep responder s t sealed payload w = record {
    role_s = w.role_s;
    role_t = w.role_t;
    state_t = w.state_t;
    cid_s = w.cid_s;
    cid_t = w.cid_t;
    sized = w.sized;
    keys_s = w.keys_s;
    keys_t = w.keys_t;
    named = w.named;
    key_sized = w.key_sized;
    iv_sized = w.iv_sized;
    counted = ap (λ n. n + 1) w.counted;
    handshake = w.handshake;
    handshake_kind = w.handshake_kind;
    last_t = w.last_t;
  }

  counted_on :
      (role : Role) (s t : Session) (payload : Bytes)
      → InStep env role aead cid k s t
      → sending_seq role s ≢ receiving_seq (peer role) (got_by role t payload)
  counted_on initiator s t payload w e = omega (arith, w.counted)
  counted_on responder s t payload w e = omega (arith, w.counted)

  -- Of two established sessions in step, over cryptography that keeps its laws: a payload of
  -- admissible length that the one sends below the last sequence number becomes one PDU, from which
  -- the other gets exactly that payload, as its last; the two are in step again, and the same PDU
  -- once more is refused with HandshakeFailed and changes nothing.
  pub payload_delivered :
      (role : Role) (s t : Session) (payload : Bytes) (coins : Coins) (now later : ℕ)
      → InStep env role aead cid k s t
      → sending_seq role s < 256 ^ 12
      → length payload ≤ max_text
      → (sealed : Bytes) × (send_established_payload env keys payload s
          ≡ (ok tt, sent_by role s sealed))
        × (process_incoming env keys coins (pdu_of role s sealed) now t
            ≡ (ok tt, got_by role t payload))
        × InStep env role aead cid k (sent_by role s sealed) (got_by role t payload)
        × (process_incoming env keys coins (pdu_of role s sealed) later (got_by role t payload)
            ≡ (err handshake_failed, got_by role t payload))
  payload_delivered role s t payload coins now later w below fits =
      let z = (sealing role s t payload w below fits).sealed in
      let again = still_InStep role s t z payload w in
      (
        z,
        message_sent role s t payload w below fits,
        message_routed role s t (sealed_message role s z) coins now w
            ∙ message_opened role s t payload w below fits,
        again,
        message_routed role (sent_by role s z) (got_by role t payload) (sealed_message role s z)
              coins later again
            ∙ message_refused role (sent_by role s z) (got_by role t payload)
                (sealed_message role s z) (sending_seq role s) again refl
                (counted_on role s t payload w),
      )
