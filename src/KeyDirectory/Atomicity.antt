-- ===== src/KeyDirectory/Atomicity.antt =====
-- `_atomic_write`: what is left of a write that succeeds, fails or is cut off.
use kem_make.Base.{
  ℕ, zero, suc, Bytes, true, false, ◌&&◌, ◌≡◌, ◌≢◌, ◌⊎◌, inl, inr, refl, Option, none, some, List,
  [], ◌∷◌, ◌++◌, arith, take, drop, take-append-drop, append-nil, last_cancel, codes, append_assoc,
  if◌then◌else◌, ◌==◌, bytes_eq, Option-cases,
}
use kem_make.Base.Dict.{Dict, get}
use kem_make.KeyDirectory.Files.{
  File, creates, calls_in_parts, owner_only, perform, perform_all, Fault, unlinks, lose, chunks,
  temporary, atomic_write,
}
use kem_make.KeyDirectory.State.{
  Folder, Draw, der_name, header_name, alt_index_name, read_file, write_file,
}
pub use kem_make.KeyDirectory.Staging.{succeeded}
use kem_make.KeyDirectory.Staging.{concat, created-Staged, written, cut_off_after}

-- The parts of a content make up the content.
concat-chunks : (sizes : List ℕ) (content : Bytes) → concat (chunks sizes content) ≡ content
concat-chunks [] content = append-nil content
concat-chunks (n ∷ ns) content =
    ground (arith, concat-chunks ns (drop n content), take-append-drop n content)

-- What a stop does to a file that is synced, and to none.
lose_kept :
    (name garbled : Bytes) (d e : Dict File)
    → ((f : File) → get name d ≡ some f → f.synced ≡ true)
    → get name e ≡ get name d
    → get name (lose name garbled e) ≡ get name d
unfolding lose
lose_kept name garbled d e was same = elim (Option-cases (get name d)) [
  | inl absent ↦ ground (arith, same, absent)
  | inr (f, there) ↦ ground (arith, same, there, was f there)
]

lose_synced :
    (name garbled : Bytes) (f : File) (e : Dict File)
    → f.synced ≡ true
    → get name e ≡ some f
    → get name (lose name garbled e) ≡ some f
unfolding lose
lose_synced name garbled f e done there = ground (arith, done, there)

-- the same before anything is lost
pub cut_off_calls :
    (tmp name content : Bytes) (mode : ℕ) (sizes : List ℕ) (n : ℕ) (d : Dict File)
    → tmp ≢ name
    → get tmp d ≡ none
    → (get name (perform_all tmp (take n (calls_in_parts sizes name content mode)) d) ≡ get name d)
      ⊎ (get name (perform_all tmp (take n (calls_in_parts sizes name content mode)) d)
          ≡ some (record { content = content; mode = mode; synced = true }))
unfolding perform_all
cut_off_calls tmp name content mode sizes zero d other fresh = inl refl
cut_off_calls tmp name content mode sizes (suc n) d other fresh =
    elim (cut_off_after tmp d name [] mode fresh (chunks sizes content) n
      (record { content = []; mode = owner_only; synced = false }) (perform tmp creates d)
      (created-Staged tmp d) other) [
        | inl old ↦ inl old
        | inr new ↦ inr (ground (arith, new, concat-chunks sizes content))
      ]

-- A write of a content, by a new temporary file, under another name whose file, if there is one, is
-- synced: a crash after any number of its system calls, in whatever sizes the content was taken and
-- whatever becomes of a content that was not synced, leaves under the name what was there before,
-- or a file of exactly this content and mode.
pub atomic_write_cut_off :
    (tmp name content garbled : Bytes) (mode : ℕ) (sizes : List ℕ) (n : ℕ) (d : Dict File)
    → tmp ≢ name
    → get tmp d ≡ none
    → ((f : File) → get name d ≡ some f → f.synced ≡ true)
    → let left =
        lose name garbled (perform_all tmp (take n (calls_in_parts sizes name content mode)) d) in
      (get name left ≡ get name d)
      ⊎ (get name left ≡ some (record { content = content; mode = mode; synced = true }))
atomic_write_cut_off tmp name content garbled mode sizes n d other fresh was =
    let e = perform_all tmp (take n (calls_in_parts sizes name content mode)) d in
    elim (cut_off_calls tmp name content mode sizes n d other fresh) [
      | inl old ↦ inl (lose_kept name garbled d e was old)
      | inr new ↦ inr (
          lose_synced name garbled (record { content = content; mode = mode; synced = true }) e refl
            new)
    ]

-- `_atomic_write`, by a temporary file of another name, gives the name its new content and mode,
-- synced, and touches nothing else, or raises and leaves every file as it was; the temporary file
-- too, unless `os.unlink` fails.
pub atomic_write_exact :
    (fault : Fault) (chars name content : Bytes) (mode : ℕ) (d : Dict File) (j : Bytes)
    → temporary chars ≢ name
    → (temporary chars ≢ j) ⊎ (unlinks fault ≡ true)
    → get j (atomic_write fault chars name content mode d).1 ≡ (
        if succeeded (atomic_write fault chars name content mode d).0 && name == j
        then some (record { content = content; mode = mode; synced = true })
        else get j d)
unfolding atomic_write
atomic_write_exact fault chars name content mode d j other apart =
    elim (Option-cases (get (temporary chars) d)) [
      | inl fresh ↦
          ground (arith, written (temporary chars) d name content mode fresh fault j apart)
      | inr (f, taken) ↦ ground arith
    ]

-- The two names end in different letters.
pub temporary-ne-name : (chars h : Bytes) → temporary chars ≢ der_name h
temporary-ne-name chars h e =
    let front = codes ".tmp-" ++ (chars ++ codes ".par") in
    let back = h ++ codes ".de" in
    let same : front ++ 116 ∷ [] ≡ back ++ 114 ∷ [] = ground (
      arith,
      e,
      append_assoc (codes ".tmp-") (chars ++ codes ".par") (116 ∷ []),
      append_assoc chars (codes ".par") (116 ∷ []),
      append_assoc h (codes ".de") (114 ∷ []),
    ) in
    absurd (omega (arith, (last_cancel front back 116 114 same).1))

pub temporary-ne-header_name : (chars : Bytes) → temporary chars ≢ header_name
temporary-ne-header_name chars e = ground arith

pub temporary-ne-alt_index_name : (chars : Bytes) → temporary chars ≢ alt_index_name
temporary-ne-alt_index_name chars e = ground arith

-- What is read after a write into a folder.
pub read_file-write_file :
    (draw : Draw) (name content j : Bytes) (mode : ℕ) (folder : Option Folder)
    → temporary draw.chars ≢ name
    → temporary draw.chars ≢ j
    → read_file j (write_file draw name content mode folder).1 ≡ (
        if succeeded (write_file draw name content mode folder).0 && name == j
        then some content
        else read_file j folder)
unfolding read_file write_file
read_file-write_file draw name content j mode none other apart = refl
read_file-write_file draw name content j mode (some folder) other apart = ground (
  arith,
  atomic_write_exact draw.fault draw.chars name content mode folder.files j other (inl apart),
)
