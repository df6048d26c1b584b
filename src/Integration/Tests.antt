-- ===== src/Integration/Tests.antt =====
-- A handshake over key directories, at concrete inputs.
use kem_make.Base.{sym, subst}
use kem_make.KeyDirectory.State.{hex_of}
use kem_make.KeyDirectory.Files.{unlinks}
use kem_make.Base.{true}
use kem_make.KeyDirectory.Invariant.{IsSound, IsWrappable}
use kem_make.KeyDirectory.Derivation.{derive_kek}
use kem_make.KeyDirectory.Retrieval.{IsClear, add_public_key_completes}
use kem_make.KeyDirectory.Pairs.{
  add_public_key_others, keypair_stored, add_public_key-IsClear, add_private_key_elsewhere,
}
use kem_make.KeyDirectory.{as_wire_key}
use kem_make.Base.{
  ℕ, String, List, false, bytes_discrete, bytes_eq, ◌==◌, ◌≡◌, refl, Bytes, none, some, [], ◌∷◌,
  arith, string_discrete, nat_discrete, any, all,
}
use kem_make.Errors.{ok, err}
use kem_make.Samples.Encoder.{der, pair, represented, list, octets, option, token}
use kem_make.Samples.Text.{char_text}
use kem_make.Wire.Algorithms.{kem_alg, mlkem_pk_len, mlkem_oid, aead_oid}
use kem_make.Wire.Messages.{KemPublicKey, KeyId, pos}
use kem_make.Wire.{build_aead_list}
use kem_make.Session.Backend.{Coins}
use kem_make.Session.Answers.{choose_aead}
use kem_make.Session.State.{default_config}
use kem_make.Session.Laws.{public_of}
use kem_make.Session.Handshake.Agreement.{Agrees}
use kem_make.KeyDirectory.Lifecycle.{created, Reaches-IsSound}
use kem_make.KeyDirectory.{wire_key, add_public_key, add_private_key}
use kem_make.Samples.Messages.{sample_asn1, sample-RoundTrips}
use kem_make.Samples.Backend.{checksum, sample_backend, sample_env, sample-Laws}
use kem_make.Samples.Vault.{
  sample_vault, sample_hashing, sample-Codecs, sample-IsWrap, is_wrappable,
}
use kem_make.Integration.Provisions.{Provision}
use kem_make.Integration.{Setting, Occasion, run_of, directories-Agrees}
use kem_make.Wire.{build_key_id}
use kem_make.KeyDirectory.Entries.{primary_key_id}
use kem_make.KeyDirectory.Hex.{hex}
use kem_make.Samples.Directory.{
  draw, passphrase, bare, new_directory, is_created, is_tree, is_absent, public_folder_free,
  private_folder_free, sample_hashing_octets,
}

level_known : mlkem_oid 768 ≡ some "2.16.840.1.101.3.4.4.2"
unfolding mlkem_oid nat_discrete
level_known = refl

-- the public key of a seed
abbrev public_key_of : Bytes → KemPublicKey
public_key_of seed =
    public_of sample_backend 768 sample-Laws "2.16.840.1.101.3.4.4.2" level_known seed

unfoldable id_of : KemPublicKey → KeyId
id_of public_key = elim (primary_key_id sample_vault public_key) [
  | ok kid ↦ kid
  | err e ↦ record { hash_algorithm = public_key.algorithm; key_hash = [] }
]

id_of-hashed :
    (public_key : KemPublicKey) → primary_key_id sample_vault public_key ≡ ok (id_of public_key)
unfolding id_of build_key_id sample_vault sample_hashing
id_of-hashed public_key = refl

are_apart :
    ((hex (id_of (public_key_of (1 ∷ []))).key_hash
        == hex (id_of (public_key_of (2 ∷ []))).key_hash)
      ≡ false)
    × ((hex (id_of (public_key_of (2 ∷ []))).key_hash
          == hex (id_of (public_key_of (1 ∷ []))).key_hash)
        ≡ false)
unfolding id_of build_key_id sample_vault sample_hashing sample_asn1 checksum hex der pair
    represented list octets option token char_text bytes_discrete sample_backend mlkem_pk_len
    nat_discrete kem_alg
are_apart = (refl, refl)

is_removed : unlinks draw.fault ≡ true
unfolding unlinks
is_removed = refl

-- A pair whose first part is known.
whole : {A B : Type 0} (r : A × B) (a : A) → r.0 ≡ a → r ≡ (a, r.1)
whole r a e = λ i. (e i, r.1)

is_sound : IsSound sample_vault new_directory
is_sound =
    Reaches-IsSound sample_vault sample-Codecs passphrase new_directory
      (created draw (pos 3) bare new_directory is_tree is_created)

is_wrapped : (kek bytes : Bytes) → sample_vault.wrap kek bytes ≡ some (checksum kek ∷ bytes)
unfolding sample_vault
is_wrapped kek bytes = refl

-- a directory that a party fills, the peer's id being another
fill :
    (own peer : KemPublicKey) (seed : Bytes)
    → IsWrappable seed
    → (hex (id_of own).key_hash == hex (id_of peer).key_hash) ≡ false
    → Provision sample_vault own peer seed
unfolding as_wire_key
fill own peer seed wrappable apart =
    let v = sample_vault in
    let own_id = id_of own in
    let k = new_directory in
    let with_own = (add_public_key v draw (wire_key own) k).1 in
    let with_private = (add_private_key v draw own seed with_own).1 in
    let added =
      add_public_key_completes v sample-Codecs draw (wire_key own) k own own_id refl
        (id_of-hashed own) (is_absent (hex_of own_id)).0 public_folder_free in
    let kek = derive_kek v k.master_key draw.salt (v.asn1.dump_key_id own_id) in
    let (_, private_added, _, _) =
      keypair_stored v sample-Codecs sample_hashing_octets sample-IsWrap draw draw (wire_key own)
        own own_id seed (checksum kek ∷ seed) k is_sound wrappable refl (id_of-hashed own)
        (is_absent (hex_of own_id)).0 (is_absent (hex_of own_id)).1 public_folder_free
        private_folder_free (is_wrapped kek seed) in
    let others =
      add_public_key_others v sample-Codecs draw (wire_key own) own own_id k (hex_of (id_of peer))
        refl (id_of-hashed own) (λ e. ground (arith, e, apart)) in
    let folder = add_private_key_elsewhere v sample-Codecs draw own seed with_own in
    let free =
      add_public_key-IsClear v sample-Codecs draw draw (wire_key own) k public_folder_free
        is_removed in
    let peer_added =
      add_public_key_completes v sample-Codecs draw (wire_key peer) with_private peer (id_of peer)
        refl (id_of-hashed peer)
        (ground (arith, folder, others, (is_absent (hex_of (id_of peer))).0))
        (subst (IsClear draw) (sym folder) free) in
    record {
      passphrase = passphrase;
      start = k;
      reached = created draw (pos 3) bare new_directory is_tree is_created;
      first = draw;
      second = draw;
      third = draw;
      own_id = own_id;
      peer_id = id_of peer;
      with_own = with_own;
      with_private = with_private;
      filled = (add_public_key v draw (wire_key peer) with_private).1;
      own_added = whole (add_public_key v draw (wire_key own) k) (ok own_id) added;
      private_added = whole (add_private_key v draw own seed with_own) (ok own_id) private_added;
      peer_added =
          whole (add_public_key v draw (wire_key peer) with_private) (ok (id_of peer)) peer_added;
    }

abbrev oids : List String
oids = "2.16.840.1.101.3.4.1.46" ∷ "1.2.840.113549.1.9.16.3.18" ∷ []

abbrev setting : Setting
unfolding sample_env sample_asn1 mlkem_oid nat_discrete build_aead_list aead_oid choose_aead
    string_discrete any all
setting = record {
  vault = sample_vault;
  codecs = sample-Codecs;
  unwraps = sample-IsWrap;
  octet = sample_hashing_octets;
  env = sample_env;
  level = 768;
  oid = "2.16.840.1.101.3.4.4.2";
  known = level_known;
  laws = sample-Laws;
  codec = sample-RoundTrips;
  alice_seed = 1 ∷ [];
  bob_seed = 2 ∷ [];
  alice_wrappable = is_wrappable 1;
  bob_wrappable = is_wrappable 2;
  alice =
      fill (public_key_of (1 ∷ [])) (public_key_of (2 ∷ [])) (1 ∷ []) (is_wrappable 1) are_apart.0;
  bob =
      fill (public_key_of (2 ∷ [])) (public_key_of (1 ∷ [])) (2 ∷ []) (is_wrappable 2) are_apart.1;
  config_a = default_config;
  config_b = default_config;
  level_a = refl;
  level_b = refl;
  waits_a = omega arith;
  waits_b = omega arith;
  requested = oids;
  advertised = refl;
  chosen = "aes256-gcm";
  agreed = refl;
  accepted = refl;
}

abbrev coins_of : ℕ → Coins
coins_of n = record {
  uuid = n ∷ 0 ∷ 0 ∷ 0 ∷ 0 ∷ 0 ∷ 0 ∷ 0 ∷ 0 ∷ 0 ∷ 0 ∷ 0 ∷ 0 ∷ 0 ∷ 0 ∷ 0 ∷ [];
  seed = n ∷ 1 ∷ [];
  first = n ∷ 2 ∷ [];
  second = n ∷ 3 ∷ [];
  nonce = n ∷ 4 ∷ [];
}

abbrev occasion : Occasion setting
unfolding aead_oid string_discrete setting
occasion = record {
  coins_a = coins_of 11;
  coins_b = coins_of 12;
  coins_c = coins_of 13;
  coins_d = coins_of 14;
  coins_e = coins_of 15;
  now_a = 100;
  now_b = 101;
  now_c = 102;
  now_d = 103;
  now_e = 104;
  pa = some (104 ∷ 105 ∷ []);
  pb = none;
  fits_a = omega arith;
  fits_b = tt;
  sized = refl;
  aead = "2.16.840.1.101.3.4.1.46";
  named = refl;
}

directories-Agrees_example : Agrees (run_of setting occasion)
directories-Agrees_example = directories-Agrees setting occasion
