-- ===== src/Dispatcher/Tests.antt =====
-- The dispatcher over the sample packages.
use kem_make.Base.{
  ℕ, Bytes, ◌≡◌, refl, ◌⊎◌, none, some, [], ◌∷◌, arith, nat_discrete, bytes_discrete,
}
use kem_make.Base.Dict.{get}
use kem_make.Errors.{ok}
use kem_make.Wire.{load_message}
use kem_make.Wire.Messages.{
  KeyId, MakeMessage, SessionCompletionResponse, session_completion_response, pos,
}
use kem_make.Wire.Canonical.{load_message-encode}
use kem_make.Candidates.{CandidateStore, candidates_for}
use kem_make.Session.Backend.{KeyLookup, Coins}
use kem_make.Session.State.{
  Session, default_config, initiator, responder, expect_session_init_response,
  expect_session_completion_request, new_session,
}
use kem_make.Dispatcher.State.{Dispatcher, new_dispatcher, reconcile_expired_candidates}
use kem_make.Dispatcher.Isolation.{Holds, post_pdu-Holds}
use kem_make.Dispatcher.Promotion.{Exclusive}
use kem_make.Dispatcher.Reachable.{
  initiates, posts_pdu, updates, Reaches, at_start, after, reachable-Exclusive,
}
use kem_make.Dispatcher.Starvation.{
  is_starved, HasWon, delivered, reconcile_exact, responder_shadows_forks,
}
use kem_make.Dispatcher.State.{has_none}
use kem_make.Base.{if◌then◌else◌, ◌&&◌}
use kem_make.Base.Dict.{contains}
use kem_make.Dispatcher.{initiate, post_pdu, update}
use kem_make.Samples.Messages.{sample_asn1, sample-RoundTrips}
use kem_make.Samples.Backend.{sample_env}

abbrev cid : Bytes
cid = 9 ∷ 0 ∷ 0 ∷ 0 ∷ 0 ∷ 0 ∷ 0 ∷ 0 ∷ 0 ∷ 0 ∷ 0 ∷ 0 ∷ 0 ∷ 0 ∷ 0 ∷ 0 ∷ []

abbrev other : Bytes
other = 8 ∷ 0 ∷ 0 ∷ 0 ∷ 0 ∷ 0 ∷ 0 ∷ 0 ∷ 0 ∷ 0 ∷ 0 ∷ 0 ∷ 0 ∷ 0 ∷ 0 ∷ 0 ∷ []

abbrev keys : KeyLookup
keys = record { get_public_key = λ id. none; get_private_key = λ id. some (1 ∷ []) }

abbrev random : ℕ → Coins
random n = record { uuid = cid; seed = n ∷ []; first = n ∷ []; second = n ∷ []; nonce = n ∷ [] }

abbrev store : CandidateStore
store = record { max_per_cid = 2; max_total = 3; ttl_seconds = 10; by_cid = []; total = 0 }

abbrev own_id : KeyId
own_id = record {
  hash_algorithm = record { algorithm = "2.16.840.1.101.3.4.2.1"; parameters = none };
  key_hash = 1 ∷ [];
}

abbrev response : SessionCompletionResponse
response = record { h_m = 1 ∷ []; m = none }

abbrev reply : MakeMessage
reply = record { version = pos 0; cid = cid; payload = session_completion_response response }

abbrev reply_pdu : Bytes
reply_pdu = sample_env.asn1.make_message.encode reply

reply_loads : load_message sample_env.asn1 reply_pdu ≡ ok reply
unfolding sample_env
reply_loads = (load_message-encode sample_asn1 sample-RoundTrips reply).1 (refl, tt)

-- An initiator's template without forks, and a responder session that someone has opened under the
-- same correlation id.
abbrev waiting : Session
unfolding new_session
waiting = record (new_session initiator (some own_id) default_config) {
  state = expect_session_init_response;
  cid = some cid;
}

abbrev intruder : Session
unfolding new_session
intruder = record (new_session responder none default_config) {
  state = expect_session_completion_request;
  cid = some cid;
}

abbrev pending : Dispatcher
unfolding new_dispatcher
pending = record (new_dispatcher default_config store) {
  initiator_templates = (cid, waiting) ∷ [];
  initiator_forks = (cid, []) ∷ [];
}

abbrev contested : Dispatcher
unfolding new_dispatcher pending
contested = record (new_dispatcher default_config store) {
  responder_sessions = (cid, intruder) ∷ [];
  initiator_templates = (cid, waiting) ∷ [];
  initiator_forks = (cid, waiting ∷ []) ∷ [];
}

post_pdu-Holds_example :
    Holds other contested (post_pdu sample_env keys random reply_pdu 5 contested).1
post_pdu-Holds_example =
    post_pdu-Holds sample_env keys random reply_pdu 5 other contested
      (λ msg e. ground (arith, reply_loads))

-- A request is sent, a reply comes under its correlation id, and time passes.
abbrev start : Dispatcher
start = new_dispatcher default_config store

abbrev requested : Dispatcher
requested = (initiate sample_env keys random own_id own_id 0 start).1

abbrev answered : Dispatcher
answered = (post_pdu sample_env keys random reply_pdu 1 requested).1

path : Reaches sample_env keys random start (update sample_env keys random 6 answered).1
unfolding new_dispatcher get
path =
    after
      (after (after at_start (initiates own_id own_id 0 start refl))
        (posts_pdu reply_pdu 1 requested))
      (updates 6 answered)

reachable-Exclusive_example : Exclusive cid (update sample_env keys random 6 answered).1
reachable-Exclusive_example =
    reachable-Exclusive sample_env keys random default_config store
      (update sample_env keys random 6 answered).1 cid path

reconcile_exact_example :
    let w = reconcile_expired_candidates pending in
    (get cid w.responder_sessions ≡ (
      if has_none (candidates_for pending.candidates cid)
      then none
      else get cid pending.responder_sessions))
    × (get cid w.initiator_forks
        ≡ (if is_starved cid pending then none else get cid pending.initiator_forks))
    × (get cid w.initiator_templates ≡ (
        if is_starved cid pending && contains cid pending.initiator_forks
        then none
        else get cid pending.initiator_templates))
    × (w.candidates ≡ pending.candidates)
    × (w.established_sessions ≡ pending.established_sessions)
reconcile_exact_example = reconcile_exact cid pending

responder_shadows_forks_example :
    let w = (post_pdu sample_env keys random reply_pdu 5 contested).1 in
    (get cid w.initiator_forks ≡ get cid contested.initiator_forks)
    ⊎ HasWon cid sample_env keys random
        (delivered cid sample_env keys random intruder reply_pdu 5 contested)
        w
unfolding contested get bytes_discrete nat_discrete
responder_shadows_forks_example =
    responder_shadows_forks cid sample_env keys random reply_pdu 5 contested intruder reply response
      reply_loads refl refl refl refl
