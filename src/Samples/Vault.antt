-- ===== src/Samples/Vault.antt =====
-- The encoders of a key directory's records, and a toy cryptography for it.
use kem_make.Base.{ℕ, ◌%◌, refl, some, [], ◌∷◌, ◌++◌, arith, codes, nat_eq}
use kem_make.Wire.{Hashing, RoundTrips}
use kem_make.KeyDirectory.Records.{
  KeystoreHeader, PublicKeyEntryData, StoredPublicKeyEntry, StoredPrivateKeyEntry, AltIndexEntry,
  AltIndexFile,
}
use kem_make.KeyDirectory.Derivation.{Vault}
use kem_make.KeyDirectory.Invariant.{Codecs, IsWrap, IsWrappable}
use kem_make.KeyDirectory.Alternates.{IsOctetHash}
use kem_make.Samples.Encoder.{Encoder, octets, pair, represented, list, der, der-RoundTrips}
use kem_make.Samples.Text.{char_text}
use kem_make.Samples.Messages.{integer, public_key, key_id, sample_asn1}
use kem_make.Samples.Backend.{repeat, checksum, unseal}

header : Encoder KeystoreHeader
header =
    represented
      (λ p. record {
        version = p.0.0;
        kdf_salt = p.0.1;
        kdf_iterations = p.1.0;
        verification_tag = p.1.1;
      })
      (λ a. ((a.version, a.kdf_salt), (a.kdf_iterations, a.verification_tag))) (λ a. refl)
      (pair (pair integer octets) (pair integer octets))

entry_data : Encoder PublicKeyEntryData
entry_data =
    represented (λ p. record { public_key = p.0; key_ids = p.1 }) (λ a. (a.public_key, a.key_ids))
      (λ a. refl) (pair public_key (list key_id))

public_entry : Encoder StoredPublicKeyEntry
public_entry =
    represented (λ p. record { content = p.0; mac_salt = p.1.0; mac_tag = p.1.1 })
      (λ a. (a.content, (a.mac_salt, a.mac_tag))) (λ a. refl) (pair entry_data (pair octets octets))

private_entry : Encoder StoredPrivateKeyEntry
private_entry =
    represented
      (λ p. record {
        key_id = p.0.0;
        kek_salt = p.0.1;
        wrap_algorithm = p.1.0;
        wrapped_key = p.1.1;
      })
      (λ a. ((a.key_id, a.kek_salt), (a.wrap_algorithm, a.wrapped_key))) (λ a. refl)
      (pair (pair key_id octets) (pair char_text octets))

index_entry : Encoder AltIndexEntry
index_entry =
    represented (λ p. record { key_id = p.0; primary_hex = p.1 }) (λ a. (a.key_id, a.primary_hex))
      (λ a. refl) (pair key_id octets)

alt_index : Encoder AltIndexFile
alt_index =
    represented (λ p. record { entries = p.0; mac_salt = p.1.0; mac_tag = p.1.1 })
      (λ a. (a.entries, (a.mac_salt, a.mac_tag))) (λ a. refl)
      (pair (list index_entry) (pair octets octets))

-- Digests of two octets; an algorithm's OID is its name.
unfoldable pub sample_hashing : Hashing
sample_hashing = record {
  digest = λ name text. some ((checksum (codes name) % 256) ∷ (checksum text % 256) ∷ []);
  digest_oid = λ name. name;
}

pub sample_hashing-IsOctetHash : IsOctetHash sample_hashing
unfolding sample_hashing
sample_hashing-IsOctetHash name text digest e = ground (arith, e)

unfoldable pub sample_vault : Vault
unfolding checksum header public_entry private_entry alt_index entry_data index_entry
sample_vault = record {
  asn1 = sample_asn1;
  hashing = sample_hashing;
  records = record {
    header = der header;
    public_entry = der public_entry;
    private_entry = der private_entry;
    alt_index = der alt_index;
    dump_entry_data = λ a. entry_data.put a [];
    dump_entries = λ a. (list index_entry).put a [];
  };
  pbkdf2 = λ n passphrase salt iterations. some (repeat n (checksum (passphrase ++ salt)));
  hkdf = λ n salt info key. repeat n (checksum (salt ++ (info ++ key)));
  hmac_sha256 = λ key text. checksum (key ++ text) ∷ [];
  wrap = λ kek bytes. some (checksum kek ∷ bytes);
  unwrap = λ kek text. unseal (checksum kek) text;
}

pub sample-Codecs : Codecs sample_vault
unfolding sample_vault
sample-Codecs = record {
  public_entry = der-RoundTrips public_entry;
  private_entry = der-RoundTrips private_entry;
  alt_index = der-RoundTrips alt_index;
}

pub is_wrappable : (n : ℕ) → IsWrappable (n ∷ [])
is_wrappable n = (ground arith, ground arith)

pub sample-IsWrap : IsWrap sample_vault
unfolding sample_vault
sample-IsWrap kek bytes wrapped fits e = ground arith

pub sample_header-RoundTrips : RoundTrips sample_vault.records.header
unfolding sample_vault
sample_header-RoundTrips = der-RoundTrips header
