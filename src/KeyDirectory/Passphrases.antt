-- ===== src/KeyDirectory/Passphrases.antt =====
-- `create` and `open`.
use kem_make.Base.{inl, inr, Bytes, ◌≡◌, some, arith, if◌then◌else◌, ◌==◌, bytes_eq}
use kem_make.Errors.{Result-cases, ok, err, wrong_passphrase}
use kem_make.Wire.Messages.{Integer, pos}
use kem_make.Wire.{RoundTrips, require_der}
use kem_make.KeyDirectory.Files.{owner_only}
use kem_make.KeyDirectory.Records.{KeystoreHeader, load_header}
use kem_make.KeyDirectory.Derivation.{Vault, derive_master_key, derive_check_tag}
use kem_make.KeyDirectory.State.{Disk, KeyDirectory, Draw, header_name, read_file}
use kem_make.KeyDirectory.Atomicity.{read_file-write_file, temporary-ne-header_name}
use kem_make.KeyDirectory.{make_folders, write_header, create, open_directory}

-- What `create` leaves in the header.
abbrev pub header_of : Vault → Draw → Integer → Bytes → KeystoreHeader
header_of v draw iterations master_key = record {
  version = pos 0;
  kdf_salt = draw.salt;
  kdf_iterations = iterations;
  verification_tag = derive_check_tag v master_key draw.salt;
}

module _ (v : Vault) (codec : RoundTrips v.records.header) where
  pub load_header-encode :
      (h : KeystoreHeader) → load_header v.records (v.records.header.encode h) ≡ ok h
  unfolding load_header require_der
  load_header-encode h = ground (arith, codec h)

  pub created_header :
      (draw : Draw) (passphrase : Bytes) (iterations : Integer) (disk : Disk) (k : KeyDirectory)
      → (create v draw passphrase iterations disk).0 ≡ ok k
      → (derive_master_key v passphrase draw.salt iterations ≡ ok k.master_key)
        × (read_file header_name k.disk.root
            ≡ some (v.records.header.encode (header_of v draw iterations k.master_key)))
  unfolding create write_header
  created_header draw passphrase iterations disk k e =
      elim (Result-cases (derive_master_key v passphrase draw.salt iterations)) [
        | inl (x, refused) ↦ absurd (ground arith)
        | inr (m, made) ↦ ground (
          arith,
          read_file-write_file draw header_name
              (v.records.header.encode (header_of v draw iterations m)) header_name owner_only
              (make_folders disk).root (temporary-ne-header_name draw.chars)
              (temporary-ne-header_name draw.chars),
        )
      ]

  -- With the header's round trip, a directory that was just created opens with its passphrase, to
  -- the same master key. Another passphrase opens it exactly if its master key has the same
  -- verification tag; otherwise `open` raises WrongPassphrase.
  pub open_directory-create :
      (draw : Draw) (passphrase other master_key : Bytes) (iterations : Integer) (disk : Disk)
      (k : KeyDirectory)
      → (create v draw passphrase iterations disk).0 ≡ ok k
      → derive_master_key v other draw.salt iterations ≡ ok master_key
      → (open_directory v passphrase k.disk ≡ ok k)
        × (open_directory v other k.disk ≡ (
            if derive_check_tag v master_key draw.salt == derive_check_tag v k.master_key draw.salt
            then ok (record { disk = k.disk; master_key = master_key })
            else err wrong_passphrase))
  unfolding open_directory
  open_directory-create draw passphrase other master_key iterations disk k e derived =
      let (own, held) = created_header draw passphrase iterations disk k e in
      let loads = load_header-encode (header_of v draw iterations k.master_key) in
      (ground (arith, loads, held, own), ground (arith, loads, held, derived))
