-- ===== src/Session/Answers.antt =====
-- src/kem_make/session.py: what the handlers of the handshake compute before they write to the
-- session. A raise here leaves the session as it was.
use kem_make.Base.{
  String, Bytes, Bool, not, Option, none, some, List, [], ◌∷◌, ◌==◌, nat_eq, string_eq,
  if◌then◌else◌, any,
}
use kem_make.Base.Dict.{or_else}
use kem_make.Errors.{
  Result, ok, or_raise, raise_if, raise_instead, ◌>>=◌, ◌>>◌, key_error, handshake_failed,
  key_lookup_error, backend_error,
}
use kem_make.Wire.Algorithms.{aead_oid, aead_name}
use kem_make.Wire.Messages.{
  KemPublicKey, KemCiphertext, SessionInitRequest, SessionInitResponse, SessionCompletionRequest,
  session_init_response,
}
use kem_make.Wire.{build_message, dump_message}
use kem_make.Session.Backend.{
  Env, KeyLookup, Coins, PrivateKey, SessionKeys, require_class, level_of, generate_ephemeral,
  encapsulate, decapsulate, derive_session_keys, encrypt, decrypt,
}
use kem_make.Session.State.{Session, used}

-- `name in names`, on a list or a set of texts
abbrev pub is_in : String → List String → Bool
is_in name names = any (λ x. x == name) names

-- `next((name for name in names if AEAD_OIDS[name] in requested), None)`
unfoldable pub choose_aead : List String → List String → Result (Option String)
choose_aead [] requested = ok none
choose_aead (name ∷ names) requested =
    let rest = choose_aead names requested in
    or_raise (aead_oid name) key_error >>= λ oid.
    if is_in oid requested then ok (some name) else rest

pub record InitAnswer : Type 0 where
  pub own_ephemeral : PrivateKey × KemPublicKey
  pub peer_static_public : KemPublicKey
  pub s1 : Bytes
  pub s2 : Bytes
  pub s3 : Bytes
  pub chosen : String
  pub pdu : Bytes

-- What a session reads of itself while it answers.
pub record CompletionAnswer : Type 0 where
  pub n_a : Bytes
  pub s4 : Bytes
  pub keys : SessionKeys
  pub plaintext : Bytes

pub record ResponseAnswer : Type 0 where
  pub n_a : Bytes
  pub n_b : Bytes
  pub ct4 : KemCiphertext
  pub chosen : String
  pub keys : SessionKeys
  pub plaintext : Bytes
  pub c_m : Bytes

module _ (env : Env) (keys : KeyLookup) where
  -- `_handle_session_init_request`, up to `out_der`
  unfoldable pub answer_init_request : Session → Coins → SessionInitRequest → Result InitAnswer
  answer_init_request s coins req = do
    own_static_private ← or_raise (keys.get_private_key req.key_id_b) handshake_failed
    peer_static ← or_raise (keys.get_public_key req.key_id_a) handshake_failed
    level ← level_of req.pk_a_star
    s1 ← decapsulate env.backend own_static_private level req.ct1
    (own_private, own_public) ← generate_ephemeral env.backend level coins.seed
    (s2, ct2) ← encapsulate env.backend req.pk_a_star coins.first
    (s3, ct3) ← encapsulate env.backend peer_static coins.second
    candidate ← choose_aead s.config.acceptable_aeads req.acceptable_aeads
    chosen ← or_raise candidate handshake_failed
    chosen_oid ← or_raise (aead_oid chosen) key_error
    cid ← used s.cid
    msg ← build_message cid (
        session_init_response (record {
          pk_b_star = own_public;
          ct2 = ct2;
          ct3 = ct3;
          n_b = coins.nonce;
          chosen_aead = chosen_oid;
        }))
    der ← dump_message env.asn1 msg
    ok (record {
      own_ephemeral = (own_private, own_public);
      peer_static_public = peer_static;
      s1 = s1;
      s2 = s2;
      s3 = s3;
      chosen = chosen;
      pdu = der;
    })

  -- `_handle_session_completion_request`, up to the check that `c_m` decrypts
  unfoldable pub open_completion_request :
      Session → SessionCompletionRequest → Result CompletionAnswer
  open_completion_request s req = do
    own_private ← used s.own_ephemeral_private
    s4 ← decapsulate env.backend own_private.seed s.config.kem_level req.ct4
    n_b ← used s.n_b
    peer_key_id ← used s.peer_key_id
    s1 ← used s.s1
    s2 ← used s.s2
    s3 ← used s.s3
    aead ← used s.chosen_aead
    session_keys ←
        derive_session_keys env.backend req.n_a n_b (env.asn1.dump_key_id peer_key_id) s1 s2 s3 s4
          aead
    plaintext ←
        raise_instead
          (used s.cid >>= λ cid.
            decrypt env.backend session_keys.aead_name session_keys.key_a2b session_keys.iv_a2b 0
              req.c_m cid)
          handshake_failed
    ok (record { n_a = req.n_a; s4 = s4; keys = session_keys; plaintext = plaintext })

  -- `_handle_session_init_response`, up to `c_m`
  unfoldable pub answer_init_response :
      Session → Coins → SessionInitResponse → Result ResponseAnswer
  answer_init_response s coins resp = do
    own_key_id ← used s.own_key_id
    own_static_private ← or_raise (keys.get_private_key own_key_id) key_lookup_error
    own_private ← used s.own_ephemeral_private
    s2 ← decapsulate env.backend own_private.seed s.config.kem_level resp.ct2
    s3 ← decapsulate env.backend own_static_private s.config.kem_level resp.ct3
    chosen ← or_raise (aead_name resp.chosen_aead) handshake_failed
    raise_if (not (is_in chosen s.config.acceptable_aeads)) handshake_failed
    (s4, ct4) ← encapsulate env.backend resp.pk_b_star coins.first
    s1 ← used s.s1
    session_keys ←
        derive_session_keys env.backend coins.nonce resp.n_b (env.asn1.dump_key_id own_key_id) s1 s2
          s3 s4 chosen
    let plaintext : Bytes = or_else s.pending_payload []
    cid ← used s.cid
    c_m ←
        encrypt env.backend session_keys.aead_name session_keys.key_a2b session_keys.iv_a2b 0
          plaintext cid
    ok (record {
      n_a = coins.nonce;
      n_b = resp.n_b;
      ct4 = ct4;
      chosen = chosen;
      keys = session_keys;
      plaintext = plaintext;
      c_m = c_m;
    })

  -- the decryption of the optional reply in `_handle_session_completion_response`
  unfoldable pub decrypt_reply : Session → Bytes → Result Bytes
  decrypt_reply s ciphertext =
      raise_instead
        (do
          k ← used s.session_keys
          cid ← used s.cid
          decrypt env.backend k.aead_name k.key_b2a k.iv_b2a 0 ciphertext cid)
        handshake_failed

  -- the private key that `fork` makes from the seed of its own
  unfoldable pub copy_ephemeral : Session → Result PrivateKey
  copy_ephemeral s = do
    require_class s.config.kem_level
    own ← used s.own_ephemeral_private
    raise_if (not (env.backend.is_seed s.config.kem_level own.seed)) backend_error
    ok (record { level = s.config.kem_level; seed = own.seed })
