-- ===== src/Wire/Messages.antt =====
-- src/kem_make/bottom.py: the protocol's structures. An OID is its dotted form, an INTEGER is
-- signed, a `uuid.UUID` is its bytes.
use kem_make.Base.{ℕ, String, Bytes, Option, List}
use kem_make.Wire.Algorithms.{AlgorithmIdentifier}

-- `negsuc n` is -(n + 1).
pub data Integer : Type 0 where
  pos : ℕ → Integer
  negsuc : ℕ → Integer

pub record KemPublicKey : Type 0 where
  pub algorithm : AlgorithmIdentifier
  pub public_key : Bytes

pub record KemCiphertext : Type 0 where
  pub algorithm : AlgorithmIdentifier
  pub ciphertext : Bytes

pub record KeyId : Type 0 where
  pub hash_algorithm : AlgorithmIdentifier
  pub key_hash : Bytes

pub record SessionInitRequest : Type 0 where
  pub ct1 : KemCiphertext
  pub key_id_b : KeyId
  pub pk_a_star : KemPublicKey
  pub key_id_a : KeyId
  pub acceptable_aeads : List String

pub record SessionInitResponse : Type 0 where
  pub pk_b_star : KemPublicKey
  pub ct2 : KemCiphertext
  pub ct3 : KemCiphertext
  pub n_b : Bytes
  pub chosen_aead : String

pub record SessionCompletionRequest : Type 0 where
  pub c_m : Bytes
  pub ct4 : KemCiphertext
  pub n_a : Bytes

pub record SessionCompletionResponse : Type 0 where
  pub h_m : Bytes
  pub m : Option Bytes

pub record Message : Type 0 where
  pub seq : Integer
  pub m : Bytes

pub data MakePayload : Type 0 where
  session_init_request : SessionInitRequest → MakePayload
  session_init_response : SessionInitResponse → MakePayload
  session_completion_request : SessionCompletionRequest → MakePayload
  session_completion_response : SessionCompletionResponse → MakePayload
  message : Message → MakePayload

pub record MakeMessage : Type 0 where
  pub version : Integer
  pub cid : Bytes
  pub payload : MakePayload
