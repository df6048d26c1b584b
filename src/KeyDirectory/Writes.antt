-- ===== src/KeyDirectory/Writes.antt =====
-- What is read of a key directory after one of its files was written.
use kem_make.Base.{
  ℕ, Bytes, true, ◌&&◌, ◌≡◌, refl, ap, some, arith, append_cancel, if◌then◌else◌, ◌==◌, bytes_eq,
  bytes_discrete, codes, inl, inr, ◌⊎◌, Bool-cases,
}
use kem_make.Base.Dict.{is_some}
use kem_make.KeyDirectory.Hex.{hex}
use kem_make.KeyDirectory.State.{
  KeyDirectory, Draw, der_name, alt_index_name, public_file, private_file, alt_index_file,
  write_public, write_private, write_alt_index,
}
use kem_make.KeyDirectory.Atomicity.{
  succeeded, read_file-write_file, temporary-ne-name, temporary-ne-alt_index_name,
}

-- Names of files differ where the keys' names do.
==-der_name : (a b : Bytes) → (der_name a == der_name b) ≡ (a == b)
==-der_name a b = elim (bytes_discrete a b) [
  | yes same ↦ ground (arith, ap der_name same)
  | no apart ↦ ground (arith, append_cancel a b (codes ".der"))
]

module _ (draw : Draw) (bs content : Bytes) (mode : ℕ) (k : KeyDirectory) where
  pub public_file-write_public :
      (h : Bytes)
      → public_file h (write_public draw (hex bs) content mode k).1 ≡ (
          if succeeded (write_public draw (hex bs) content mode k).0 && hex bs == h
          then some content
          else public_file h k)
  unfolding write_public
  public_file-write_public h = ground (
    arith,
    read_file-write_file draw (der_name (hex bs)) content (der_name h) mode k.disk.public_folder
        (temporary-ne-name draw.chars (hex bs)) (temporary-ne-name draw.chars h),
    ==-der_name (hex bs) h,
  )

  pub private_file-write_private :
      (h : Bytes)
      → private_file h (write_private draw (hex bs) content mode k).1 ≡ (
          if succeeded (write_private draw (hex bs) content mode k).0 && hex bs == h
          then some content
          else private_file h k)
  unfolding write_private
  private_file-write_private h = ground (
    arith,
    read_file-write_file draw (der_name (hex bs)) content (der_name h) mode k.disk.private_folder
        (temporary-ne-name draw.chars (hex bs)) (temporary-ne-name draw.chars h),
    ==-der_name (hex bs) h,
  )

  -- a file that is there afterwards was there, or is the new one
  pub write_public_cases :
      (h encoded : Bytes)
      → public_file h (write_public draw (hex bs) content mode k).1 ≡ some encoded
      → (public_file h k ≡ some encoded) ⊎ ((hex bs ≡ h) × (content ≡ encoded))
  write_public_cases h encoded there = elim (bytes_discrete (hex bs) h) [
    | yes same ↦ elim (Bool-cases (succeeded (write_public draw (hex bs) content mode k).0)) [
      | inl done ↦ inr (same, ground (arith, public_file-write_public h))
      | inr failed ↦ inl (ground (arith, public_file-write_public h))
    ]
    | no apart ↦ inl (ground (arith, public_file-write_public h))
  ]

  pub write_private_cases :
      (h encoded : Bytes)
      → private_file h (write_private draw (hex bs) content mode k).1 ≡ some encoded
      → (private_file h k ≡ some encoded) ⊎ ((hex bs ≡ h) × (content ≡ encoded))
  write_private_cases h encoded there = elim (bytes_discrete (hex bs) h) [
    | yes same ↦ elim (Bool-cases (succeeded (write_private draw (hex bs) content mode k).0)) [
      | inl done ↦ inr (same, ground (arith, private_file-write_private h))
      | inr failed ↦ inl (ground (arith, private_file-write_private h))
    ]
    | no apart ↦ inl (ground (arith, private_file-write_private h))
  ]

  -- and no file goes away
  pub write_public_kept :
      (h : Bytes)
      → is_some (public_file h k) ≡ true
      → is_some (public_file h (write_public draw (hex bs) content mode k).1) ≡ true
  write_public_kept h there = ground (arith, public_file-write_public h)

  -- the other folders stay
  pub write_public_elsewhere :
      (h : Bytes)
      → let w = (write_public draw (hex bs) content mode k).1 in
        (w.master_key ≡ k.master_key)
        × (private_file h w ≡ private_file h k)
        × (alt_index_file w ≡ alt_index_file k)
  unfolding write_public
  write_public_elsewhere h = (refl, refl, refl)

  pub write_private_elsewhere :
      (h : Bytes)
      → let w = (write_private draw (hex bs) content mode k).1 in
        (w.master_key ≡ k.master_key)
        × (public_file h w ≡ public_file h k)
        × (alt_index_file w ≡ alt_index_file k)
  unfolding write_private
  write_private_elsewhere h = (refl, refl, refl)

module _ (draw : Draw) (content : Bytes) (mode : ℕ) (k : KeyDirectory) where
  pub alt_index_file-write_alt_index : alt_index_file (write_alt_index draw content mode k).1 ≡ (
      if succeeded (write_alt_index draw content mode k).0 then some content else alt_index_file k)
  unfolding write_alt_index
  alt_index_file-write_alt_index = ground (
    arith,
    read_file-write_file draw alt_index_name content alt_index_name mode k.disk.root
        (temporary-ne-alt_index_name draw.chars) (temporary-ne-alt_index_name draw.chars),
  )

  pub write_alt_index_elsewhere :
      (h : Bytes)
      → let w = (write_alt_index draw content mode k).1 in
        (w.master_key ≡ k.master_key)
        × (public_file h w ≡ public_file h k)
        × (private_file h w ≡ private_file h k)
  unfolding write_alt_index
  write_alt_index_elsewhere h = (refl, refl, refl)
