-- ===== src/Dispatcher/Reachable.antt =====
-- The states that the public methods lead to.
use kem_make.Base.{
  ℕ, Bytes, ◌≡◌, refl, subst, some, [], map, arith, Option-cases, inl, inr, bytes_discrete,
}
use kem_make.Base.Dict.{get, get-set, get-erase}
use kem_make.Errors.{ok, Result-cases}
use kem_make.Wire.Messages.{MakeMessage, KeyId}
use kem_make.Wire.{correlation_id, load_message}
use kem_make.Candidates.{CandidateStore}
use kem_make.Session.Backend.{Env, KeyLookup, Coins}
use kem_make.Session.State.{Session, SessionConfig, initiator, new_session}
use kem_make.Session as Sessions
use kem_make.Dispatcher.State.{Dispatcher, new_dispatcher}
use kem_make.Dispatcher.Routing.{route_message, route_loaded}
use kem_make.Dispatcher.Isolation.{post_pdu-Holds}
use kem_make.Dispatcher.Promotion.{
  Exclusive, Unproven, Holds-Exclusive, deliver_established-Exclusive, route_pending-Exclusive,
}
use kem_make.Dispatcher.Exclusion.{AllExclusive, update-Exclusive}
use kem_make.Dispatcher as Dispatchers

module _ (env : Env) (keys : KeyLookup) (random : ℕ → Coins) where
  -- the correlation id of the message itself
  route_message-Exclusive :
      (msg : MakeMessage) (der : Bytes) (now : ℕ) (d : Dispatcher)
      → Exclusive (correlation_id msg) d
      → Exclusive (correlation_id msg) (route_message env keys random msg der now d).1
  unfolding route_message
  route_message-Exclusive msg der now d h =
      elim (Option-cases (get msg.cid d.established_sessions)) [
        | inl absent ↦
            ground
              (arith, route_pending-Exclusive msg.cid env keys random der now msg.payload d absent)
        | inr (s, found) ↦ ground (
          arith,
          deliver_established-Exclusive msg.cid env keys random der now s d (ground arith),
        )
      ]

  post_pdu-Exclusive :
      (der : Bytes) (now : ℕ) (d : Dispatcher)
      → AllExclusive d
      → AllExclusive (Dispatchers.post_pdu env keys random der now d).1
  unfolding Dispatchers.post_pdu route_loaded
  post_pdu-Exclusive der now d h j = elim (Result-cases (load_message env.asn1 der)) [
    | inl (e, refused) ↦ ground (arith, h j)
    | inr (msg, loaded) ↦ elim (bytes_discrete msg.cid j) [
      | yes same ↦ ground (
        arith,
        subst (λ i. Exclusive i (route_message env keys random msg der now d).1) same
            (route_message-Exclusive msg der now d (h msg.cid)),
      )
      | no apart ↦
          Holds-Exclusive j d (Dispatchers.post_pdu env keys random der now d).1
            (post_pdu-Holds env keys random der now j d (λ m e. ground arith)) (h j)
    ]
  ]

  -- One call of a public method. `uuid4` gives an initiator a correlation id under which no
  -- session is established.
  pub data Calls : Dispatcher → Dispatcher → Type 0 where
    initiates :
        (own peer : KeyId) (now : ℕ) (d : Dispatcher)
        → Unproven (random d.drawn).uuid d
        → Calls d (Dispatchers.initiate env keys random own peer now d).1
    posts_pdu :
        (der : Bytes) (now : ℕ) (d : Dispatcher)
        → Calls d (Dispatchers.post_pdu env keys random der now d).1
    posts_payload :
        (cid payload : Bytes) (d : Dispatcher) → Calls d (Dispatchers.post_payload cid payload d).1
    gets_pdu : (d : Dispatcher) → Calls d (Dispatchers.get_pdu d).1
    gets_payload : (d : Dispatcher) → Calls d (Dispatchers.get_payload d).1
    closes : (cid : Bytes) (d : Dispatcher) → Calls d (Dispatchers.close cid d)
    updates : (now : ℕ) (d : Dispatcher) → Calls d (Dispatchers.update env keys random now d).1

  -- Any number of calls.
  pub data Reaches (d : Dispatcher) : Dispatcher → Type 0 where
    at_start : Reaches d d
    after : {e f : Dispatcher} → Reaches d e → Calls e f → Reaches d f

  initiate_cid :
      (coins : Coins) (peer : KeyId) (now : ℕ) (s : Session) (u : Unit {0})
      → (Sessions.initiate env keys coins peer now s).0 ≡ ok u
      → (Sessions.initiate env keys coins peer now s).1.cid ≡ some coins.uuid
  unfolding Sessions.initiate
  initiate_cid coins peer now s u h = ground arith

  initiate-Exclusive :
      (own peer : KeyId) (now : ℕ) (d : Dispatcher)
      → Unproven (random d.drawn).uuid d
      → AllExclusive d
      → AllExclusive (Dispatchers.initiate env keys random own peer now d).1
  unfolding Dispatchers.initiate Dispatchers.install_template
  initiate-Exclusive own peer now d fresh h j =
      let primary = new_session initiator (some own) d.config in
      ground (
        arith,
        h j,
        initiate_cid (random d.drawn) peer now primary tt,
        get-set (random d.drawn).uuid j
            (record ((Sessions.initiate env keys (random d.drawn) peer now primary).1) {
              outgoing_pdus = [];
            })
            d.initiator_templates,
        get-set (random d.drawn).uuid j [] d.initiator_forks,
      )

  post_payload-Exclusive :
      (cid payload : Bytes) (d : Dispatcher)
      → AllExclusive d
      → AllExclusive (Dispatchers.post_payload cid payload d).1
  unfolding Dispatchers.post_payload Dispatchers.post_to_initiator
  post_payload-Exclusive cid payload d h j = elim (Option-cases (get cid d.established_sessions)) [
    | inr (s, found) ↦
        ground
          (arith, h j, get-set cid j (Sessions.post_payload payload s).1 d.established_sessions)
    | inl absent ↦ elim (Option-cases (get cid d.responder_sessions)) [
      | inr (s, found) ↦
          ground
            (arith, h j, get-set cid j (Sessions.post_payload payload s).1 d.responder_sessions)
      | inl no_responder ↦ elim (Option-cases (get cid d.initiator_templates)) [
        | inl no_template ↦ ground (arith, h j)
        | inr (s, found) ↦ elim (Option-cases (get cid d.initiator_forks)) [
          | inl no_forks ↦
              ground (
                arith,
                h j,
                get-set cid j (Sessions.post_payload payload s).1 d.initiator_templates,
              )
          | inr (forks, listed) ↦ ground (
            arith,
            h j,
            get-set cid j (Sessions.post_payload payload s).1 d.initiator_templates,
            get-set cid j (map (λ s. (Sessions.post_payload payload s).1) forks) d.initiator_forks,
          )
        ]
      ]
    ]
  ]

  close-Exclusive :
      (cid : Bytes) (d : Dispatcher) → AllExclusive d → AllExclusive (Dispatchers.close cid d)
  unfolding Dispatchers.close
  close-Exclusive cid d h j = ground (arith, h j, get-erase cid j d.established_sessions)

  get_pdu-Exclusive : (d : Dispatcher) → AllExclusive d → AllExclusive (Dispatchers.get_pdu d).1
  unfolding Dispatchers.get_pdu
  get_pdu-Exclusive d h j = ground (arith, h j)

  get_payload-Exclusive :
      (d : Dispatcher) → AllExclusive d → AllExclusive (Dispatchers.get_payload d).1
  unfolding Dispatchers.get_payload
  get_payload-Exclusive d h j = ground (arith, h j)

  Calls-Exclusive : {d e : Dispatcher} → Calls d e → AllExclusive d → AllExclusive e
  Calls-Exclusive (initiates own peer now d fresh) = initiate-Exclusive own peer now d fresh
  Calls-Exclusive (posts_pdu der now d) = post_pdu-Exclusive der now d
  Calls-Exclusive (posts_payload cid payload d) = post_payload-Exclusive cid payload d
  Calls-Exclusive (gets_pdu d) = get_pdu-Exclusive d
  Calls-Exclusive (gets_payload d) = get_payload-Exclusive d
  Calls-Exclusive (closes cid d) = close-Exclusive cid d
  Calls-Exclusive (updates now d) = update-Exclusive env keys random now d

  Reaches-Exclusive : {d e : Dispatcher} → Reaches d e → AllExclusive d → AllExclusive e
  Reaches-Exclusive at_start h = h
  Reaches-Exclusive (after path call) h = Calls-Exclusive call (Reaches-Exclusive path h)

  -- Whatever is called on a new dispatcher, in whatever order, with whatever bytes and times, and
  -- whether or not calls raise, as long as `uuid4` draws no correlation id under which a session is
  -- established: under no correlation id does an established session stand beside a pending one, be
  -- it a responder session, a template or a fork.
  pub reachable-Exclusive :
      (config : SessionConfig) (store : CandidateStore) (d : Dispatcher) (cid : Bytes)
      → Reaches (new_dispatcher config store) d
      → Exclusive cid d
  unfolding new_dispatcher get
  reachable-Exclusive config store d cid path = Reaches-Exclusive path start cid
    where
      start : AllExclusive (new_dispatcher config store)
      start j = inl nothing
        where
          nothing : Unproven j (new_dispatcher config store)
          nothing = refl
