-- ===== src/KeyDirectory/Steps.antt =====
-- What each call of a key directory comes to, once its checks have passed.
use kem_make.Base.{
  Bytes, String, true, ◌≡◌, none, some, [], ◌∷◌, ◌++◌, arith, Option-cases, inl, inr, ◌⊎◌,
}
use kem_make.Base.Dict.{is_some}
use kem_make.Errors.{
  Error, Result, Result-cases, ok, err, duplicate_key, private_key_requires_public_key, value_error,
}
use kem_make.Wire.Messages.{KemPublicKey, KeyId}
use kem_make.Wire.{build_key_id}
use kem_make.KeyDirectory.Files.{owner_only, world_readable}
use kem_make.KeyDirectory.Records.{PublicKeyEntryData, StoredPrivateKeyEntry}
use kem_make.KeyDirectory.Derivation.{Vault, derive_kek, wrap_algorithm_oid}
use kem_make.KeyDirectory.State.{
  KeyDirectory, Draw, hex_of, public_file, private_file, write_public, write_private,
}
use kem_make.KeyDirectory.Entries.{primary_key_id, build_stored_public_key_entry, alt_index_add}
use kem_make.KeyDirectory.Atomicity.{succeeded}
use kem_make.KeyDirectory.{
  PublicInput, as_wire_key, prepare_public_key, add_public_key, first_id, cache_key_id,
  prepare_private_key, add_private_key,
}

-- the entry of a new public key
abbrev pub fresh_content : KemPublicKey → KeyId → PublicKeyEntryData
fresh_content public_key primary = record { public_key = public_key; key_ids = primary ∷ [] }

-- the entry of a private key
abbrev pub sealed : Draw → KeyId → Bytes → StoredPrivateKeyEntry
sealed draw primary wrapped = record {
  key_id = primary;
  kek_salt = draw.salt;
  wrap_algorithm = wrap_algorithm_oid;
  wrapped_key = wrapped;
}

abbrev pub with_id : PublicKeyEntryData → KeyId → PublicKeyEntryData
with_id content kid = record content { key_ids = content.key_ids ++ kid ∷ [] }

module _ (v : Vault) where
  -- the writes of the calls
  abbrev pub put_public :
      Draw → KeyId → PublicKeyEntryData → KeyDirectory → Result (Unit {0}) × KeyDirectory
  put_public draw primary content k =
      write_public draw (hex_of primary)
        (v.records.public_entry.encode
          (build_stored_public_key_entry v k.master_key content (hex_of primary) draw.salt))
        world_readable k

  abbrev pub put_private :
      Draw → StoredPrivateKeyEntry → KeyDirectory → Result (Unit {0}) × KeyDirectory
  put_private draw stored k =
      write_private draw (hex_of stored.key_id) (v.records.private_entry.encode stored) owner_only k

  -- A call that got as far as its write.
  pub record AddsPublic (draw : Draw) (input : PublicInput) (k : KeyDirectory) : Type 0 where
    pub public_key : KemPublicKey
    pub primary : KeyId
    pub wire : as_wire_key input ≡ ok public_key
    pub hashed : primary_key_id v public_key ≡ ok primary
    pub new : public_file (hex_of primary) k ≡ none
    pub state :
        (add_public_key v draw input k).1
        ≡ (put_public draw primary (fresh_content public_key primary) k).1
    pub agrees :
        succeeded (add_public_key v draw input k).0
        ≡ succeeded (put_public draw primary (fresh_content public_key primary) k).0
    pub returns : (kid : KeyId) → (add_public_key v draw input k).0 ≡ ok kid → kid ≡ primary

  pub add_public_key_steps :
      (draw : Draw) (input : PublicInput) (k : KeyDirectory)
      → ((x : Error) × (add_public_key v draw input k ≡ (err x, k))) ⊎ AddsPublic draw input k
  unfolding add_public_key prepare_public_key
  add_public_key_steps draw input k = elim (Result-cases (as_wire_key input)) [
    | inl (x, refused) ↦ inl (x, ground arith)
    | inr (public_key, wire) ↦ elim (Result-cases (primary_key_id v public_key)) [
      | inl (x, refused) ↦ inl (x, ground arith)
      | inr (primary, hashed) ↦ elim (Option-cases (public_file (hex_of primary) k)) [
        | inr (encoded, there) ↦ inl (duplicate_key, ground arith)
        | inl absent ↦ inr (record {
          public_key = public_key;
          primary = primary;
          wire = wire;
          hashed = hashed;
          new = absent;
          state = ground arith;
          agrees = ground arith;
          returns = λ kid e. ground arith;
        })
      ]
    ]
  ]

  pub record AddsPrivate (draw : Draw) (public_key : KemPublicKey) (bytes : Bytes)
      (k : KeyDirectory) : Type 0 where
    pub primary : KeyId
    pub wrapped : Bytes
    pub hashed : primary_key_id v public_key ≡ ok primary
    pub beside : is_some (public_file (hex_of primary) k) ≡ true
    pub new : private_file (hex_of primary) k ≡ none
    pub wraps :
        v.wrap (derive_kek v k.master_key draw.salt (v.asn1.dump_key_id primary)) bytes
        ≡ some wrapped
    pub state :
        (add_private_key v draw public_key bytes k).1
        ≡ (put_private draw (sealed draw primary wrapped) k).1
    pub agrees :
        succeeded (add_private_key v draw public_key bytes k).0
        ≡ succeeded (put_private draw (sealed draw primary wrapped) k).0
    pub returns :
        (kid : KeyId) → (add_private_key v draw public_key bytes k).0 ≡ ok kid → kid ≡ primary

  pub add_private_key_steps :
      (draw : Draw) (public_key : KemPublicKey) (bytes : Bytes) (k : KeyDirectory)
      → ((x : Error) × (add_private_key v draw public_key bytes k ≡ (err x, k)))
        ⊎ AddsPrivate draw public_key bytes k
  unfolding add_private_key prepare_private_key
  add_private_key_steps draw public_key bytes k =
      elim (Result-cases (primary_key_id v public_key)) [
        | inl (x, refused) ↦ inl (x, ground arith)
        | inr (primary, hashed) ↦ elim (Option-cases (public_file (hex_of primary) k)) [
          | inl absent ↦ inl (private_key_requires_public_key, ground arith)
          | inr (public_bytes, beside) ↦ elim (Option-cases (private_file (hex_of primary) k)) [
            | inr (encoded, there) ↦ inl (duplicate_key, ground arith)
            | inl new ↦
                elim (Option-cases (
                  v.wrap (derive_kek v k.master_key draw.salt (v.asn1.dump_key_id primary))
                    bytes)) [
                      | inl refused ↦ inl (value_error, ground arith)
                      | inr (wrapped, wraps) ↦ inr (record {
                        primary = primary;
                        wrapped = wrapped;
                        hashed = hashed;
                        beside = ground arith;
                        new = new;
                        wraps = wraps;
                        state = ground arith;
                        agrees = ground arith;
                        returns = λ kid e. ground arith;
                      })
                    ]
          ]
        ]
      ]

  -- A digest that no id of the entry has: an entry is written, then the index.
  pub record Caches (draw second : Draw) (content : PublicKeyEntryData) (digest : String)
      (k : KeyDirectory) : Type 0 where
    pub new_kid : KeyId
    pub primary : KeyId
    pub made : build_key_id v.asn1 v.hashing content.public_key digest ≡ ok new_kid
    pub first : first_id (content.key_ids ++ new_kid ∷ []) ≡ ok primary
    pub state :
        ((cache_key_id v draw second content digest k).1
          ≡ (put_public draw primary (with_id content new_kid) k).1)
        ⊎ ((succeeded (put_public draw primary (with_id content new_kid) k).0 ≡ true)
            × ((cache_key_id v draw second content digest k).1
                ≡ (alt_index_add v second new_kid
                    (hex_of primary)
                    (put_public draw primary (with_id content new_kid) k).1).1))
    pub back :
        (kid : KeyId)
        → (cache_key_id v draw second content digest k).0 ≡ ok kid
        → (kid ≡ new_kid)
          × (succeeded (put_public draw primary (with_id content new_kid) k).0 ≡ true)
          × (succeeded
                (alt_index_add v second new_kid
                  (hex_of primary)
                  (put_public draw primary (with_id content new_kid) k).1).0
              ≡ true)
          × ((cache_key_id v draw second content digest k).1
              ≡ (alt_index_add v second new_kid
                  (hex_of primary)
                  (put_public draw primary (with_id content new_kid) k).1).1)

  pub cache_key_id_steps :
      (draw second : Draw) (content : PublicKeyEntryData) (digest : String) (k : KeyDirectory)
      → ((x : Error) × (cache_key_id v draw second content digest k ≡ (err x, k)))
        ⊎ Caches draw second content digest k
  unfolding cache_key_id
  cache_key_id_steps draw second content digest k =
      elim (Result-cases (build_key_id v.asn1 v.hashing content.public_key digest)) [
        | inl (x, refused) ↦ inl (x, ground arith)
        | inr (new_kid, made) ↦ elim (Result-cases (first_id (content.key_ids ++ new_kid ∷ []))) [
          | inl (x, refused) ↦ inl (x, ground arith)
          | inr (primary, first) ↦ inr (record {
            new_kid = new_kid;
            primary = primary;
            made = made;
            first = first;
            state = elim (Result-cases (put_public draw primary (with_id content new_kid) k).0) [
              | inl (x, refused) ↦ inl (ground arith)
              | inr (done, written) ↦ inr (ground arith, ground arith)
            ];
            back = λ kid e. ground arith;
          })
        ]
      ]
