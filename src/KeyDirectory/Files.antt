-- ===== src/KeyDirectory/Files.antt =====
-- src/kem_make/keystore.py, `_atomic_write`, on a folder as a dict from names to files.
use kem_make.Base.{
  ℕ, Bytes, Bool, true, false, take, drop, none, some, List, [], ◌∷◌, ◌++◌, map, if◌then◌else◌,
  codes,
}
use kem_make.Base.Dict.{Dict, get, set, erase, contains}
use kem_make.Errors.{Result, ok, err, os_error}

pub record File : Type 0 where
  pub content : Bytes
  pub mode : ℕ
  -- whether `fsync` has brought the content to the disk
  pub synced : Bool

-- The system calls behind a write, on the temporary file. Changes of names and modes last, in their
-- order; a content does once it is synced.
pub data SystemCall : Type 0 where
  creates : SystemCall
  appends : Bytes → SystemCall
  syncs : SystemCall
  sets_mode : ℕ → SystemCall
  replaces : Bytes → SystemCall

-- 0o600, 0o644 and 0o700
abbrev pub owner_only : ℕ
owner_only = 384

abbrev pub world_readable : ℕ
world_readable = 420

abbrev pub owner_folder : ℕ
owner_folder = 448

unfoldable pub perform : Bytes → SystemCall → Dict File → Dict File
perform tmp creates d = set tmp (record { content = []; mode = owner_only; synced = false }) d
perform tmp (appends part) d = elim (get tmp d) [
  | none ↦ d
  | some f ↦ set tmp (record f { content = f.content ++ part; synced = false }) d
]
perform tmp syncs d = elim (get tmp d) [
  | none ↦ d
  | some f ↦ set tmp (record f { synced = true }) d
]
perform tmp (sets_mode mode) d = elim (get tmp d) [
  | none ↦ d
  | some f ↦ set tmp (record f { mode = mode }) d
]
perform tmp (replaces name) d = elim (get tmp d) [ none ↦ d | some f ↦ set name f (erase tmp d) ]

unfoldable pub perform_all : Bytes → List SystemCall → Dict File → Dict File
perform_all tmp [] d = d
perform_all tmp (c ∷ cs) d = perform_all tmp cs (perform tmp c d)

-- A machine that stops: what was not synced of a file's content may be anything.
unfoldable pub lose : Bytes → Bytes → Dict File → Dict File
lose name garbled d = elim (get name d) [
  | none ↦ d
  | some f ↦ if f.synced then d else set name (record f { content = garbled }) d
]

-- Where the operating system refuses, if it does, and whether the `os.unlink` that follows works; a
-- write may have written a part.
pub data Fault : Type 0 where
  smooth : Fault
  at_create : Fault
  at_write : Bytes → Bool → Fault
  at_sync : Bool → Fault
  at_mode : Bool → Fault
  at_replace : Bool → Fault

-- nothing is to be removed, or is removed
unfoldable pub unlinks : Fault → Bool
unlinks smooth = true
unlinks at_create = true
unlinks (at_write part works) = works
unlinks (at_sync works) = works
unlinks (at_mode works) = works
unlinks (at_replace works) = works

-- The parts in which the operating system takes a content.
abbrev pub chunks : List ℕ → Bytes → List Bytes
chunks [] content = content ∷ []
chunks (n ∷ ns) content = take n content ∷ chunks ns (drop n content)

-- the calls of `_atomic_write`, where the operating system takes the content in parts of these
-- sizes
abbrev pub calls_in_parts : List ℕ → Bytes → Bytes → ℕ → List SystemCall
calls_in_parts sizes name content mode =
    creates ∷ map appends (chunks sizes content) ++ (syncs ∷ sets_mode mode ∷ replaces name ∷ [])

-- the calls, where it takes all at once
abbrev pub all_calls : Bytes → Bytes → ℕ → List SystemCall
all_calls name content mode =
    creates ∷ appends content ∷ syncs ∷ sets_mode mode ∷ replaces name ∷ []

-- `os.unlink` after a raise; where it fails, the temporary file stays
abbrev pub undone : Bool → Bytes → List SystemCall → Dict File → Result (Unit {0}) × Dict File
undone works tmp calls d =
    let left = perform_all tmp calls d in (err os_error, if works then erase tmp left else left)

-- the name that `mkstemp` makes of its random characters
abbrev pub temporary : Bytes → Bytes
temporary chars = codes ".tmp-" ++ (chars ++ codes ".part")

unfoldable pub write_under :
    Fault → Bytes → Bytes → Bytes → ℕ → Dict File → Result (Unit {0}) × Dict File
write_under smooth tmp name content mode d =
    (ok tt, perform_all tmp (all_calls name content mode) d)
write_under at_create tmp name content mode d = (err os_error, d)
write_under (at_write part works) tmp name content mode d =
    undone works tmp (creates ∷ appends part ∷ []) d
write_under (at_sync works) tmp name content mode d =
    undone works tmp (creates ∷ appends content ∷ []) d
write_under (at_mode works) tmp name content mode d =
    undone works tmp (creates ∷ appends content ∷ syncs ∷ []) d
write_under (at_replace works) tmp name content mode d =
    undone works tmp (creates ∷ appends content ∷ syncs ∷ sets_mode mode ∷ []) d

-- `_atomic_write` of a file `name` in its folder. `mkstemp` makes a new file or none.
unfoldable pub atomic_write :
    Fault → Bytes → Bytes → Bytes → ℕ → Dict File → Result (Unit {0}) × Dict File
atomic_write fault chars name content mode d =
    if contains (temporary chars) d
    then (err os_error, d)
    else write_under fault (temporary chars) name content mode d
