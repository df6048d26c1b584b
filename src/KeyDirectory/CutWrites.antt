-- ===== src/KeyDirectory/CutWrites.antt =====
-- What is read of a folder after a write that was cut off.
use kem_make.Base.{
  ◌∙◌, ℕ, zero, suc, Bytes, true, false, ◌≡◌, ◌≢◌, refl, Option, none, some, [], ◌∷◌, ◌++◌, List,
  All, arith, take, if◌then◌else◌, bytes_eq, bytes_discrete, inl, inr, ◌⊎◌, Option-cases,
}
use kem_make.Base.Dict.{Dict, get, erase, get-set, get-erase, contains, is_some}
use kem_make.KeyDirectory.Files.{
  File, SystemCall, creates, appends, syncs, sets_mode, replaces, perform, perform_all, lose,
  owner_only, all_calls, temporary,
}
use kem_make.KeyDirectory.State.{Folder, Draw, read_file}
use kem_make.KeyDirectory.Atomicity.{atomic_write_cut_off}

-- the calls touch the temporary file and the name
Touches : Bytes → SystemCall → Bytes → Type 0
Touches tmp (replaces name) j = (tmp ≢ j) × (name ≢ j)
Touches tmp c j = tmp ≢ j

perform_elsewhere :
    (tmp : Bytes) (c : SystemCall) (d : Dict File) (j : Bytes)
    → Touches tmp c j
    → get j (perform tmp c d) ≡ get j d
unfolding perform Touches
perform_elsewhere tmp creates d j apart =
    ground
      (arith, apart, get-set tmp j (record { content = []; mode = owner_only; synced = false }) d)
perform_elsewhere tmp (appends part) d j apart = elim (Option-cases (get tmp d)) [
  | inl absent ↦ ground (arith, absent)
  | inr (f, there) ↦ ground (
    arith,
    there,
    apart,
    get-set tmp j (record f { content = f.content ++ part; synced = false }) d,
  )
]
perform_elsewhere tmp syncs d j apart = elim (Option-cases (get tmp d)) [
  | inl absent ↦ ground (arith, absent)
  | inr (f, there) ↦ ground (arith, there, apart, get-set tmp j (record f { synced = true }) d)
]
perform_elsewhere tmp (sets_mode mode) d j apart = elim (Option-cases (get tmp d)) [
  | inl absent ↦ ground (arith, absent)
  | inr (f, there) ↦ ground (arith, there, apart, get-set tmp j (record f { mode = mode }) d)
]
perform_elsewhere tmp (replaces name) d j apart = elim (Option-cases (get tmp d)) [
  | inl absent ↦ ground (arith, absent)
  | inr (f, there) ↦ ground (arith, there, apart, get-set name j f (erase tmp d), get-erase tmp j d)
]

All-take : {A : Type 0} (P : A → Type 0) (n : ℕ) (xs : List A) → All P xs → All P (take n xs)
All-take P zero xs all = tt
All-take P (suc n) [] all = tt
All-take P (suc n) (x ∷ xs) (p, all) = (p, All-take P n xs all)

calls_elsewhere :
    (tmp : Bytes) (cs : List SystemCall) (d : Dict File) (j : Bytes)
    → All (λ c. Touches tmp c j) cs
    → get j (perform_all tmp cs d) ≡ get j d
unfolding perform_all
calls_elsewhere tmp [] d j apart = refl
calls_elsewhere tmp (c ∷ cs) d j (here, apart) =
    ground
      (arith, calls_elsewhere tmp cs (perform tmp c d) j apart, perform_elsewhere tmp c d j here)

tail_elsewhere :
    (tmp name content : Bytes) (mode n : ℕ) (d : Dict File) (j : Bytes)
    → tmp ≢ j
    → name ≢ j
    → get j (perform_all tmp (take n (all_calls name content mode)) d) ≡ get j d
unfolding Touches
tail_elsewhere tmp name content mode n d j a b =
    calls_elsewhere tmp (take n (all_calls name content mode)) d j (
      All-take (λ c. Touches tmp c j) n (all_calls name content mode)
        (a, (a, (a, (a, ((a, b), tt))))))

lose_elsewhere :
    (name garbled : Bytes) (d : Dict File) (j : Bytes)
    → name ≢ j
    → get j (lose name garbled d) ≡ get j d
unfolding lose
lose_elsewhere name garbled d j apart = elim (Option-cases (get name d)) [
  | inl absent ↦ ground (arith, absent)
  | inr (f, there) ↦ ground (arith, there, apart, get-set name j (record f { content = garbled }) d)
]

-- The files after a write that stopped after some of its system calls, for good: of a content that
-- was not synced, anything may be left.
unfoldable pub left_files : ℕ → Bytes → Bytes → Bytes → Bytes → ℕ → Dict File → Dict File
left_files n tmp garbled name content mode d =
    lose tmp garbled (lose name garbled (perform_all tmp (take n (all_calls name content mode)) d))

left_elsewhere :
    (n : ℕ) (tmp garbled name content : Bytes) (mode : ℕ) (d : Dict File) (j : Bytes)
    → tmp ≢ j
    → name ≢ j
    → get j (left_files n tmp garbled name content mode d) ≡ get j d
unfolding left_files
left_elsewhere n tmp garbled name content mode d j a b =
    let e = perform_all tmp (take n (all_calls name content mode)) d in
    lose_elsewhere tmp garbled (lose name garbled e) j a
    ∙ lose_elsewhere name garbled e j b
    ∙ tail_elsewhere tmp name content mode n d j a b

left_under :
    (n : ℕ) (tmp garbled name content : Bytes) (mode : ℕ) (d : Dict File)
    → tmp ≢ name
    → get tmp d ≡ none
    → get name d ≡ none
    → (get name (left_files n tmp garbled name content mode d) ≡ none)
      ⊎ (get name (left_files n tmp garbled name content mode d)
          ≡ some (record { content = content; mode = mode; synced = true }))
unfolding left_files
left_under n tmp garbled name content mode d other fresh absent =
    let e = perform_all tmp (take n (all_calls name content mode)) d in
    let outer = lose_elsewhere tmp garbled (lose name garbled e) name other in
    elim (atomic_write_cut_off tmp name content garbled mode [] n d other fresh
      (λ f there. absurd (ground (arith, absent, there)))) [
        | inl old ↦ inl (outer ∙ old ∙ absent)
        | inr new ↦ inr (outer ∙ new)
      ]

-- Such a write into a folder; `mkstemp` had made a new file.
unfoldable pub cut_file : ℕ → Draw → Bytes → Bytes → Bytes → ℕ → Option Folder → Option Folder
cut_file n draw garbled name content mode none = none
cut_file n draw garbled name content mode (some folder) =
    if contains (temporary draw.chars) folder.files
    then some folder
    else some (record folder {
      files = left_files n (temporary draw.chars) garbled name content mode folder.files;
    })

-- What is read after a write of a new name was there, or is the new file.
pub read_file-cut_file :
    (n : ℕ) (draw : Draw) (garbled name content : Bytes) (mode : ℕ) (folder : Option Folder)
    (j encoded : Bytes)
    → temporary draw.chars ≢ name
    → temporary draw.chars ≢ j
    → read_file name folder ≡ none
    → read_file j (cut_file n draw garbled name content mode folder) ≡ some encoded
    → (read_file j folder ≡ some encoded) ⊎ ((name ≡ j) × (content ≡ encoded))
unfolding cut_file read_file
read_file-cut_file n draw garbled name content mode none j encoded other apart new there = inl there
read_file-cut_file n draw garbled name content mode (some folder) j encoded other apart new there =
    let tmp = temporary draw.chars in
    elim (Option-cases (get tmp folder.files)) [
      | inr (f, taken) ↦ inl (ground (arith, taken, there))
      | inl fresh ↦ elim (bytes_discrete name j) [
        | no away ↦ inl (
            ground (
              arith,
              fresh,
              there,
              left_elsewhere n tmp garbled name content mode folder.files j apart away,
            ))
        | yes same ↦
            elim (left_under n tmp garbled name content mode folder.files other fresh
              (ground (arith, new))) [
                | inl still ↦ absurd (ground (arith, fresh, there, same, still))
                | inr written ↦ inr (same, ground (arith, fresh, there, same, written))
              ]
      ]
    ]

-- And no file goes away.
pub cut_file_kept :
    (n : ℕ) (draw : Draw) (garbled name content : Bytes) (mode : ℕ) (folder : Option Folder)
    (j : Bytes)
    → temporary draw.chars ≢ j
    → read_file name folder ≡ none
    → is_some (read_file j folder) ≡ true
    → is_some (read_file j (cut_file n draw garbled name content mode folder)) ≡ true
unfolding cut_file read_file
cut_file_kept n draw garbled name content mode none j apart new there = there
cut_file_kept n draw garbled name content mode (some folder) j apart new there =
    let tmp = temporary draw.chars in
    elim (Option-cases (get tmp folder.files)) [
      | inr (f, taken) ↦ ground (arith, taken, there)
      | inl fresh ↦ elim (bytes_discrete name j) [
        | no away ↦ ground (
          arith,
          fresh,
          there,
          left_elsewhere n tmp garbled name content mode folder.files j apart away,
        )
        | yes same ↦ absurd (ground (arith, new, same, there))
      ]
    ]
