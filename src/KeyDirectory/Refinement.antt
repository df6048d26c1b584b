-- ===== src/KeyDirectory/Refinement.antt =====
-- A key directory over many calls, against its ledger.
use kem_make.Base.{
  Bytes, Option, none, some, refl, true, ◌≡◌, ◌∙◌, ap, List, [], ◌∷◌, arith, All, ◌<◌, bytes_eq,
  inl, inr,
}
use kem_make.Errors.{Result-cases, ok, or_raise, key_not_found}
use kem_make.Wire.Messages.{Integer, KeyId}
use kem_make.KeyDirectory.Derivation.{Vault, derive_master_key, digest_oid}
use kem_make.KeyDirectory.State.{Disk, KeyDirectory, Draw, der_name, hex_of}
use kem_make.KeyDirectory.Entries.{get_public_key}
use kem_make.KeyDirectory.Invariant.{Codecs, IsWrap, IsSound}
use kem_make.KeyDirectory.Views.{
  public_view, private_view, get_public_key_lem, get_private_key_lem, found_or_raise,
}
use kem_make.KeyDirectory.Lifecycle.{
  Call, after, outcome, IsTree, empty_files, create-IsSound, after-IsSound,
}
use kem_make.KeyDirectory.Simulation.{HasWrappable, after-Shows}
use kem_make.KeyDirectory.Ledger.{Ledger, empty_ledger, as_found, book, Shows}
use kem_make.KeyDirectory.{is_vacant, write_header, create, get_private_key}

found_or_raise-map :
    (o : Option Bytes) → found_or_raise (as_found o) key_not_found ≡ or_raise o key_not_found
found_or_raise-map none = refl
found_or_raise-map (some bytes) = refl

module _ (v : Vault) where
  -- a directory after calls, and a ledger after the same calls
  unfoldable pub run : List Call → KeyDirectory → KeyDirectory
  run [] k = k
  run (c ∷ cs) k = run cs (after v c k)

  unfoldable pub book_all : List Call → KeyDirectory → Ledger → Ledger
  book_all [] k l = l
  book_all (c ∷ cs) k l = book_all cs (after v c k) (book c (outcome v c k) l)

  run-Shows :
      Codecs v
      → IsWrap v
      → (calls : List Call) (k : KeyDirectory) (l : Ledger) → All HasWrappable calls
      → IsSound v k
      → Shows v k l
      → IsSound v (run calls k) × Shows v (run calls k) (book_all calls k l)
  unfolding run book_all
  run-Shows codecs unwraps [] k l fits s shows = (s, shows)
  run-Shows codecs unwraps (c ∷ cs) k l (fits, rest) s shows =
      run-Shows codecs unwraps cs (after v c k) _ rest (after-IsSound v codecs c k s)
        (after-Shows v codecs unwraps c k l fits s shows)

  create-Shows :
      (draw : Draw) (passphrase : Bytes) (iterations : Integer) (disk : Disk) (k : KeyDirectory)
      → IsTree disk
      → (create v draw passphrase iterations disk).0 ≡ ok k
      → Shows v k empty_ledger
  unfolding create write_header public_view private_view
  create-Shows draw passphrase iterations disk k tree e =
      elim (Result-cases (derive_master_key v passphrase draw.salt iterations)) [
        | inl (x, refused) ↦ absurd (ground arith)
        | inr (m, made) ↦
            let vacant : is_vacant disk ≡ true = ground arith in
            record {
              public_keys = λ h. ground (arith, empty_files v disk (der_name h) tree vacant);
              private_keys = λ h. ground (arith, empty_files v disk (der_name h) tree vacant);
            }
      ]

  -- With the round trips of `Codecs` and a key wrap that unwraps what it wrapped, for 1 to 2^32 - 1
  -- octets: a directory that `create` made in a vacant place and any calls changed, the private
  -- keys among their arguments of such a length, with any faults of the system calls, answers like
  -- the ledger of those of the calls that returned an id: for a SHA-256 id of octets,
  -- `get_public_key` returns the key last entered under the id's hash and raises KeyNotFound where
  -- none is; so does `get_private_key` for the private key's bytes.
  pub run_refines :
      Codecs v
      → IsWrap v
      → (draw : Draw) (passphrase : Bytes) (iterations : Integer) (disk : Disk) (k : KeyDirectory)
        (calls : List Call) (key_id : KeyId)
      → All HasWrappable calls
      → IsTree disk
      → (create v draw passphrase iterations disk).0 ≡ ok k
      → key_id.hash_algorithm.algorithm ≡ digest_oid v "sha256"
      → All (λ c. c < 256) key_id.key_hash
      → let l = book_all calls k empty_ledger in
        (get_public_key v key_id (run calls k)
          ≡ or_raise (l.public_keys (hex_of key_id)) key_not_found)
        × (get_private_key v key_id (run calls k)
            ≡ or_raise (l.private_keys (hex_of key_id)) key_not_found)
  run_refines codecs unwraps draw passphrase iterations disk k calls key_id fits tree e default
        octets =
      let (s, shows) =
        run-Shows codecs unwraps calls k empty_ledger fits
          (create-IsSound v codecs draw passphrase iterations disk k tree e)
          (create-Shows draw passphrase iterations disk k tree e) in
      (
        get_public_key_lem v codecs key_id (run calls k) s default
            ∙ ap (λ o. or_raise o key_not_found) (shows.public_keys (hex_of key_id)),
        get_private_key_lem v codecs key_id (run calls k) s octets default
            ∙ ap (λ o. found_or_raise o key_not_found) (shows.private_keys (hex_of key_id))
            ∙ found_or_raise-map ((book_all calls k empty_ledger).private_keys (hex_of key_id)),
      )
