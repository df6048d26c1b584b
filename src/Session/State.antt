-- ===== src/Session/State.antt =====
-- src/kem_make/session.py: the enums, the attributes of a `Session`, and a method call on one.
use kem_make.Base.{ℕ, String, Bytes, Option, none, some, List, [], ◌∷◌, ◌++◌, Eq}
use kem_make.Errors.{Error, Result, ok, err, none_used}
use kem_make.Wire.Messages.{KemPublicKey, KeyId}
use kem_make.Session.Backend.{PrivateKey, SessionKeys}

pub data Role : Type 0 where
  initiator responder : Role

pub data SessionState : Type 0 where
  initial : SessionState
  expect_session_init_response : SessionState
  expect_session_completion_request : SessionState
  expect_session_completion_response : SessionState
  established : SessionState
  dropped : SessionState

unfoldable pub state_discrete : Discrete SessionState
state_discrete = hlevel

instance abbrev pub state_eq : Eq SessionState
state_eq = record { discrete = state_discrete }

pub data UpdateResult : Type 0 where
  nothing_ready pdu_ready payload_ready session_dropped : UpdateResult

-- A time, or `float("inf")`.
pub data Deadline : Type 0 where
  at : ℕ → Deadline
  never : Deadline

pub record SessionConfig : Type 0 where
  pub max_retries : ℕ
  pub retry_interval_seconds : ℕ
  pub ttl_seconds : ℕ
  pub kem_level : ℕ
  pub acceptable_aeads : List String

-- The defaults.
abbrev pub default_config : SessionConfig
default_config = record {
  max_retries = 2;
  retry_interval_seconds = 5;
  ttl_seconds = 60;
  kem_level = 768;
  acceptable_aeads = "aes256-gcm" ∷ "chacha20-poly1305" ∷ [];
}

pub record Session : Type 0 where
  pub role : Role
  pub own_key_id : Option KeyId
  pub config : SessionConfig
  pub state : SessionState
  pub cid : Option Bytes
  pub last_received : Option Bytes
  pub last_sent : Option Bytes
  pub attempt_count : ℕ
  pub deadline : Option ℕ
  pub outgoing_pdus : List Bytes
  pub outgoing_payloads : List Bytes
  pub pending_payload : Option Bytes
  pub own_ephemeral_private : Option PrivateKey
  pub own_ephemeral_public : Option KemPublicKey
  pub peer_static_public : Option KemPublicKey
  pub peer_key_id : Option KeyId
  pub s1 : Option Bytes
  pub s2 : Option Bytes
  pub s3 : Option Bytes
  pub s4 : Option Bytes
  pub n_a : Option Bytes
  pub n_b : Option Bytes
  pub chosen_aead : Option String
  pub session_keys : Option SessionKeys
  pub seq_a2b : ℕ
  pub seq_b2a : ℕ
  pub sent_plaintext_for_h_m : Option Bytes
  pub incoming_queue : List Bytes

-- `Session.__init__`; the key store is an argument of the calls that use it
unfoldable pub new_session : Role → Option KeyId → SessionConfig → Session
new_session role own_key_id config = record {
  role = role;
  own_key_id = own_key_id;
  config = config;
  state = initial;
  cid = none;
  last_received = none;
  last_sent = none;
  attempt_count = 0;
  deadline = none;
  outgoing_pdus = [];
  outgoing_payloads = [];
  pending_payload = none;
  own_ephemeral_private = none;
  own_ephemeral_public = none;
  peer_static_public = none;
  peer_key_id = none;
  s1 = none;
  s2 = none;
  s3 = none;
  s4 = none;
  n_a = none;
  n_b = none;
  chosen_aead = none;
  session_keys = none;
  seq_a2b = 0;
  seq_b2a = 0;
  sent_plaintext_for_h_m = none;
  incoming_queue = [];
}

-- A method call: what was written before a raise stays written.
abbrev pub Action : Type 0 → Type 0
Action A = Session → Result A × Session

module _ {A : Type 0} where
  abbrev pub pure : A → Action A
  pure a s = (ok a, s)

  abbrev pub raise : Error → Action A
  raise e s = (err e, s)

  abbrev pub lift : Result A → Action A
  lift r s = (r, s)

  abbrev pub gets : (Session → A) → Action A
  gets f s = (ok (f s), s)

abbrev pub modify : (Session → Session) → Action (Unit {0})
modify f s = (ok tt, f s)

-- what follows a raise is not run
infixl 5 ◌>>=◌ ◌>>◌
abbrev pub ◌>>=◌ : {A B : Type 0} → Action A → (A → Action B) → Action B
◌>>=◌ call rest s =
    let (outcome, t) = call s in elim outcome [ err e ↦ (err e, t) | ok a ↦ rest a t ]

abbrev pub ◌>>◌ : {A B : Type 0} → Action A → Action B → Action B
call >> rest = call >>= λ _. rest

-- An attribute that is used: `None` in its place is an AttributeError or a TypeError.
abbrev pub used {ℓ} : {A : Type ℓ} → Option A → Result A
used none = err none_used
used (some a) = ok a

-- `self._outgoing_pdus.append(pdu)`, `self._outgoing_payloads.append(payload)`
abbrev pub append_pdu : Bytes → Session → Session
append_pdu pdu s = record s { outgoing_pdus = s.outgoing_pdus ++ pdu ∷ [] }

abbrev pub append_payload : Bytes → Session → Session
append_payload payload s = record s { outgoing_payloads = s.outgoing_payloads ++ payload ∷ [] }

-- `if self._last_sent is not None: self._outgoing_pdus.append(self._last_sent)`
abbrev pub resend : Session → Session
resend s = elim s.last_sent [ none ↦ s | some pdu ↦ append_pdu pdu s ]
