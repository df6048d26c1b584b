-- ===== src/KeyDirectory/Stuck.antt =====
-- `create`, where it raises after it has made the folders.
use kem_make.Base.{
  ℕ, zero, suc, ltb, ◌≤◌, Bool-cases, Bytes, true, false, ◌≡◌, refl, Option, none, List, [], ◌∷◌,
  arith, inl, inr, ◌⊎◌, Option-cases, bytes_eq,
}
use kem_make.Base.Dict.{is_some, get}
use kem_make.Errors.{Error, Result-cases, err, key_directory_error}
use kem_make.Wire.Messages.{Integer}
use kem_make.KeyDirectory.Files.{owner_only}
use kem_make.KeyDirectory.Derivation.{Vault, derive_master_key}
use kem_make.KeyDirectory.State.{Folder, Disk, Draw, header_name, read_file, write_file}
use kem_make.KeyDirectory.Atomicity.{read_file-write_file, temporary-ne-header_name}
use kem_make.KeyDirectory.Passphrases.{header_of}
use kem_make.KeyDirectory.Lifecycle.{IsTree, empty_files}
use kem_make.KeyDirectory.{
  is_vacant, make_folder, make_dir, make_folders, make_up_to, write_header, create, open_directory,
}

List-cases : {A : Type 0} (xs : List A) → (xs ≡ []) ⊎ ((x : A) × (rest : List A) × (xs ≡ x ∷ rest))
List-cases [] = inl refl
List-cases (x ∷ xs) = inr (x, xs, refl)

module _ (v : Vault) where
  -- a folder that was made is no longer vacant
  made_not_vacant :
      (disk : Disk) (root : Option Folder)
      → is_some root ≡ true
      → is_vacant (record (make_folders disk) { root = root }) ≡ false
  unfolding is_vacant make_folders make_folder
  made_not_vacant disk root there = elim (Option-cases root) [
    | inl absent ↦ absurd (ground (arith, there, absent))
    | inr (folder, found) ↦ elim (List-cases folder.files) [
      | inl empty ↦ elim (Option-cases disk.public_folder) [
        | inl none_there ↦ ground (arith, found, empty, none_there)
        | inr (public, public_there) ↦ ground (arith, found, empty, public_there)
      ]
      | inr (f, fs, more) ↦ ground (arith, found, more)
    ]
  ]

  -- from the third call on, the public folder is there
  partly_made :
      (n mode : ℕ) (disk : Disk)
      → IsTree disk
      → is_vacant disk ≡ true
      → 3 ≤ n
      → (is_vacant (make_up_to n mode disk) ≡ false)
        × (read_file header_name (make_up_to n mode disk).root ≡ none)
  unfolding make_up_to make_dir make_folder is_vacant read_file get
  partly_made zero mode disk tree vacant far = absurd (omega (arith, far))
  partly_made (suc zero) mode disk tree vacant far = absurd (omega (arith, far))
  partly_made (suc (suc zero)) mode disk tree vacant far = absurd (omega (arith, far))
  partly_made (suc (suc (suc zero))) mode disk tree vacant far = elim (Option-cases disk.root) [
    | inl absent ↦ ground (arith, tree absent)
    | inr (folder, there) ↦ ground arith
  ]
  partly_made (suc (suc (suc (suc zero)))) mode disk tree vacant far =
      elim (Option-cases disk.root) [
        | inl absent ↦ ground (arith, tree absent)
        | inr (folder, there) ↦ ground arith
      ]
  partly_made (suc (suc (suc (suc (suc n))))) mode disk tree vacant far =
      elim (Option-cases disk.root) [
        | inl absent ↦ ground (arith, tree absent)
        | inr (folder, there) ↦ ground arith
      ]

  made_root : (disk : Disk) → is_some (make_folders disk).root ≡ true
  unfolding make_folders make_folder
  made_root disk = elim (Option-cases disk.root) [
    | inl absent ↦ ground (arith, absent)
    | inr (folder, found) ↦ ground (arith, found)
  ]

  written_root :
      (draw : Draw) (name content : Bytes) (mode : ℕ) (root : Option Folder)
      → is_some root ≡ true
      → is_some (write_file draw name content mode root).1 ≡ true
  unfolding write_file
  written_root draw name content mode root there = ground (arith, there)

  -- neither vacant nor with a header
  record IsStuck (w : Disk) : Type 0 where
    occupied : is_vacant w ≡ false
    headless : read_file header_name w.root ≡ none

  create-IsStuck :
      (draw : Draw) (passphrase : Bytes) (iterations : Integer) (disk : Disk) (x : Error)
      → IsTree disk
      → is_vacant disk ≡ true
      → 3 ≤ draw.folder_calls
      → (create v draw passphrase iterations disk).0 ≡ err x
      → IsStuck (create v draw passphrase iterations disk).1
  unfolding create write_header
  create-IsStuck draw passphrase iterations disk x tree vacant far raised =
      let (headless, _, _) = empty_files v disk header_name tree vacant in
      let (partly, headless_too) =
        partly_made draw.folder_calls draw.folder_mode disk tree vacant far in
      elim (Bool-cases (ltb draw.folder_calls 6)) [
        | inl stopped ↦ record {
          occupied = ground (arith, vacant, stopped, partly);
          headless = ground (arith, vacant, stopped, headless_too);
        }
        | inr went_on ↦ elim (Result-cases (derive_master_key v passphrase draw.salt iterations)) [
          | inl (y, refused) ↦ record {
            occupied = ground (
              arith,
              vacant,
              went_on,
              refused,
              made_not_vacant disk (make_folders disk).root (made_root disk),
            );
            headless = ground (arith, vacant, went_on, refused, headless);
          }
          | inr (m, made) ↦
              let content = v.records.header.encode (header_of v draw iterations m) in
              let root =
                (write_file draw header_name content owner_only (make_folders disk).root).1 in
              record {
                occupied = ground (
                  arith,
                  vacant,
                  went_on,
                  made,
                  raised,
                  made_not_vacant disk root (
                      written_root draw header_name content owner_only (make_folders disk).root
                        (made_root disk)),
                );
                headless = ground (
                  arith,
                  vacant,
                  went_on,
                  made,
                  raised,
                  headless,
                  read_file-write_file draw header_name content header_name owner_only
                      (make_folders disk).root (temporary-ne-header_name draw.chars)
                      (temporary-ne-header_name draw.chars),
                );
              }
        ]
      ]

  refuses :
      (w : Disk) (again : Draw) (other : Bytes) (number : Integer)
      → IsStuck w
      → create v again other number w ≡ (err key_directory_error, w)
  unfolding create
  refuses w again other number stuck = ground (arith, stuck.occupied)

  unopened :
      (w : Disk) (other : Bytes) → IsStuck w → open_directory v other w ≡ err key_directory_error
  unfolding open_directory
  unopened w other stuck = ground (arith, stuck.headless)

  -- A defect. If `create` raises in a vacant place after it has made the first subfolder, then
  -- `create` there raises KeyDirectoryError ever after, and so does `open`.
  pub create_stuck :
      (draw again : Draw) (passphrase other : Bytes) (iterations number : Integer) (disk : Disk)
      (x : Error)
      → IsTree disk
      → is_vacant disk ≡ true
      → 3 ≤ draw.folder_calls
      → (create v draw passphrase iterations disk).0 ≡ err x
      → let w = (create v draw passphrase iterations disk).1 in
        (create v again other number w ≡ (err key_directory_error, w))
        × (open_directory v other w ≡ err key_directory_error)
  create_stuck draw again passphrase other iterations number disk x tree vacant far raised =
      let w = (create v draw passphrase iterations disk).1 in
      let stuck = create-IsStuck draw passphrase iterations disk x tree vacant far raised in
      (refuses w again other number stuck, unopened w other stuck)
