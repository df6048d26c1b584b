-- ===== src/KeyDirectory/Simulation.antt =====
-- Each call of a key directory against its ledger.
use kem_make.Base.{
  Bytes, String, ◌≡◌, refl, sym, ap, subst, some, arith, bytes_eq, Option-cases, inl, inr,
}
use kem_make.Errors.{Error, Result, Result-cases, ok, err}
use kem_make.Wire.Messages.{KemPublicKey, KeyId}
use kem_make.KeyDirectory.Records.{PublicKeyEntryData}
use kem_make.KeyDirectory.Derivation.{Vault, digest_oid}
use kem_make.KeyDirectory.State.{KeyDirectory, Draw, hex_of}
use kem_make.KeyDirectory.Entries.{alt_index_add}
use kem_make.KeyDirectory.Invariant.{Codecs, IsWrappable, IsWrap, IsSound}
use kem_make.KeyDirectory.Reachable.{OwnEntry, load_referenced_own}
use kem_make.KeyDirectory.Views.{public_view}
use kem_make.KeyDirectory.Steps.{
  fresh_content, with_id, sealed, put_public, add_public_key_steps, add_private_key_steps,
  cache_key_id_steps,
}
use kem_make.KeyDirectory.Lifecycle.{Call, adds_public, adds_private, makes_id, after, outcome}
use kem_make.KeyDirectory.Ledger.{
  Ledger, book, Shows, public_view-put_public, private_view-put_private, private_view-put_public,
  public_view-put_private, alt_index_add-views,
}
use kem_make.KeyDirectory.{
  PublicInput, KeyReference, first_id, find_digest, load_referenced, cache_key_id, add_public_key,
  add_private_key, key_id_for,
}

-- A private key is of a length that RFC 5649 wraps.
unfoldable pub HasWrappable : Call → Type 0
HasWrappable (adds_public draw input) = Unit {0}
HasWrappable (adds_private draw public_key bytes) = IsWrappable bytes
HasWrappable (makes_id draw second reference digest) = Unit {0}

module _ (v : Vault) where
  book_err : (call : Call) (x : Error) (l : Ledger) → book call (err x) l ≡ l
  unfolding book
  book_err (adds_public draw input) x l = refl
  book_err (adds_private draw public_key bytes) x l = refl
  book_err (makes_id draw second reference digest) x l = refl

  book_id :
      (draw second : Draw) (reference : KeyReference) (digest : String) (r : Result KeyId)
      (l : Ledger)
      → book (makes_id draw second reference digest) r l ≡ l
  unfolding book
  book_id draw second reference digest (ok kid) l = refl
  book_id draw second reference digest (err x) l = refl

  refused-Shows :
      (call : Call) (k : KeyDirectory) (l : Ledger) (r : Result KeyId × KeyDirectory) (x : Error)
      → Shows v k l
      → r ≡ (err x, k)
      → Shows v r.1 (book call r.0 l)
  refused-Shows call k l r x shows same =
      subst (λ s. Shows v s.1 (book call s.0 l)) (sym same)
        (subst (Shows v k) (sym (book_err call x l)) shows)

  module _ (codecs : Codecs v) (unwraps : IsWrap v) where
    adds_public-Shows :
        (draw : Draw) (input : PublicInput) (k : KeyDirectory) (l : Ledger)
        → Shows v k l
        → Shows v
            (add_public_key v draw input k).1
            (book (adds_public draw input) (add_public_key v draw input k).0 l)
    unfolding book
    adds_public-Shows draw input k l shows = elim (add_public_key_steps v draw input k) [
      | inl (x, same) ↦
          refused-Shows (adds_public draw input) k l (add_public_key v draw input k) x shows same
      | inr a ↦
          let seen =
            public_view-put_public v codecs draw a.primary (fresh_content a.public_key a.primary)
              k in
          let kept =
            private_view-put_public v draw a.primary (fresh_content a.public_key a.primary) k in
          elim (Result-cases (add_public_key v draw input k).0) [
            | inl (x, raised) ↦ record {
              public_keys =
                  λ h. ground (arith, a.state, a.agrees, raised, seen h, shows.public_keys h);
              private_keys =
                  λ h. ground (arith, a.state, a.agrees, raised, kept h, shows.private_keys h);
            }
            | inr (kid, returned) ↦ record {
              public_keys = λ h. ground (
                arith,
                a.state,
                a.agrees,
                a.wire,
                a.returns kid returned,
                returned,
                seen h,
                shows.public_keys h,
              );
              private_keys = λ h.
                  ground (arith, a.state, a.agrees, a.wire, returned, kept h, shows.private_keys h);
            }
          ]
    ]

    adds_private-Shows :
        (draw : Draw) (public_key : KemPublicKey) (bytes : Bytes) (k : KeyDirectory) (l : Ledger)
        → IsWrappable bytes
        → Shows v k l
        → Shows v (add_private_key v draw public_key bytes k).1 (
            book
              (adds_private draw public_key bytes)
              (add_private_key v draw public_key bytes k).0
              l)
    unfolding book
    adds_private-Shows draw public_key bytes k l wrappable shows =
        elim (add_private_key_steps v draw public_key bytes k) [
          | inl (x, same) ↦
              refused-Shows (adds_private draw public_key bytes) k l
                (add_private_key v draw public_key bytes k) x shows same
          | inr a ↦
              let stored = sealed draw a.primary a.wrapped in
              let seen = λ (h : Bytes).
                private_view-put_private v codecs draw stored bytes k h
                  (unwraps _ bytes a.wrapped wrappable a.wraps) in
              let kept = public_view-put_private v draw stored k in
              elim (Result-cases (add_private_key v draw public_key bytes k).0) [
                | inl (x, raised) ↦ record {
                  public_keys = λ h. ground (arith, a.state, raised, kept h, shows.public_keys h);
                  private_keys =
                      λ h. ground (arith, a.state, a.agrees, raised, seen h, shows.private_keys h);
                }
                | inr (kid, returned) ↦ record {
                  public_keys = λ h. ground (arith, a.state, returned, kept h, shows.public_keys h);
                  private_keys = λ h. ground (
                    arith,
                    a.state,
                    a.agrees,
                    a.returns kid returned,
                    returned,
                    seen h,
                    shows.private_keys h,
                  );
                }
              ]
        ]

    -- an entry that is written with one more id
    with_id-Shows :
        (draw : Draw) (content : PublicKeyEntryData) (new_kid primary : KeyId) (k : KeyDirectory)
        (l : Ledger)
        → Shows v k l
        → public_view v (hex_of primary) k ≡ some content.public_key
        → Shows v (put_public v draw primary (with_id content new_kid) k).1 l
    with_id-Shows draw content new_kid primary k l shows there = record {
      public_keys = λ h. ground (
        arith,
        public_view-put_public v codecs draw primary (with_id content new_kid) k h,
        there,
        shows.public_keys h,
      );
      private_keys = λ h. ground (
        arith,
        private_view-put_public v draw primary (with_id content new_kid) k h,
        shows.private_keys h,
      );
    }

    indexed-Shows :
        (draw : Draw) (key_id : KeyId) (name : Bytes) (k : KeyDirectory) (l : Ledger)
        → Shows v k l
        → Shows v (alt_index_add v draw key_id name k).1 l
    indexed-Shows draw key_id name k l shows = record {
      public_keys =
          λ h. ground (arith, alt_index_add-views v draw key_id name k h, shows.public_keys h);
      private_keys =
          λ h. ground (arith, alt_index_add-views v draw key_id name k h, shows.private_keys h);
    }

    cached-Shows :
        (draw second : Draw) (content : PublicKeyEntryData) (digest : String) (k : KeyDirectory)
        (l : Ledger)
        → Shows v k l
        → OwnEntry v codecs k content
        → Shows v (cache_key_id v draw second content digest k).1 l
    unfolding public_view first_id
    cached-Shows draw second content digest k l shows entry =
        elim (cache_key_id_steps v draw second content digest k) [
          | inl (x, same) ↦ subst (λ w. Shows v w l) (sym (ap (λ r. r.1) same)) shows
          | inr c ↦
              let first : c.primary ≡ entry.own.primary =
                ground (arith, c.first, entry.own.listed) in
              let there : public_view v (hex_of c.primary) k ≡ some content.public_key =
                ground (arith, first, entry.own.named, entry.there, entry.good) in
              let written = with_id-Shows draw content c.new_kid c.primary k l shows there in
              elim c.state [
                | inl stopped ↦ subst (λ w. Shows v w l) (sym stopped) written
                | inr (_, went_on) ↦
                    subst (λ w. Shows v w l) (sym went_on)
                      (indexed-Shows second c.new_kid (hex_of c.primary) _ l written)
              ]
        ]

    makes_id-Shows :
        (draw second : Draw) (reference : KeyReference) (digest : String) (k : KeyDirectory)
        (l : Ledger)
        → IsSound v k
        → Shows v k l
        → Shows v (key_id_for v draw second reference digest k).1 l
    unfolding key_id_for
    makes_id-Shows draw second reference digest k l s shows =
        elim (Result-cases (load_referenced v reference k)) [
          | inl (x, refused) ↦ subst (λ w. Shows v w l) (ground arith) shows
          | inr (content, loaded) ↦
              elim (Option-cases (find_digest (digest_oid v digest) content.key_ids)) [
                | inr (kid, cached) ↦ subst (λ w. Shows v w l) (ground arith) shows
                | inl absent ↦
                    subst (λ w. Shows v w l) (ground arith)
                      (cached-Shows draw second content digest k l shows
                        (load_referenced_own v codecs reference k content s loaded))
              ]
        ]

    pub after-Shows :
        (call : Call) (k : KeyDirectory) (l : Ledger)
        → HasWrappable call
        → IsSound v k
        → Shows v k l
        → Shows v (after v call k) (book call (outcome v call k) l)
    unfolding after outcome HasWrappable
    after-Shows (adds_public draw input) k l fits s shows = adds_public-Shows draw input k l shows
    after-Shows (adds_private draw public_key bytes) k l fits s shows =
        adds_private-Shows draw public_key bytes k l fits shows
    after-Shows (makes_id draw second reference digest) k l fits s shows =
        subst (Shows v _)
          (sym (
            book_id draw second reference digest (key_id_for v draw second reference digest k).0 l))
          (makes_id-Shows draw second reference digest k l s shows)
