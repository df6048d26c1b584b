-- ===== src/KeyDirectory/Staging.antt =====
-- The temporary file of a write, and the files beside it, call by call.
use kem_make.Base.{
  ℕ, zero, suc, Bytes, Bool, true, false, ◌&&◌, ◌≡◌, ◌≢◌, ◌⊎◌, inl, inr, refl, sym, none, some,
  List, [], ◌∷◌, ◌++◌, map, arith, take, append-nil, append_assoc, if◌then◌else◌, ◌==◌, bytes_eq,
}
use kem_make.Base.Dict.{Dict, get, erase, get-set, get-erase}
use kem_make.Errors.{Result, ok, err}
use kem_make.KeyDirectory.Files.{
  File, SystemCall, creates, appends, sets_mode, replaces, owner_only, perform, perform_all, Fault,
  smooth, at_create, at_write, at_sync, at_mode, unlinks, syncs, at_replace, write_under,
}

abbrev pub succeeded : {A : Type 0} → Result A → Bool
succeeded (ok a) = true
succeeded (err e) = false

-- The temporary file holds `f`, and the other files are those of `d`.
pub record Staged (tmp : Bytes) (f : File) (d e : Dict File) : Type 0 where
  held : get tmp e ≡ some f
  others : (j : Bytes) → tmp ≢ j → get j e ≡ get j d

-- The parts of a text, put together.
abbrev pub concat : List Bytes → Bytes
concat [] = []
concat (part ∷ parts) = part ++ concat parts

module _ (tmp : Bytes) (d : Dict File) where
  pub created-Staged :
      Staged tmp
        (record { content = []; mode = owner_only; synced = false })
        d
        (perform tmp creates d)
  unfolding perform
  created-Staged =
      let empty : File = record { content = []; mode = owner_only; synced = false } in
      record {
        held = ground (arith, get-set tmp tmp empty d);
        others = λ j apart. ground (arith, get-set tmp j empty d);
      }

  appended-Staged :
      (part : Bytes) (f : File) (e : Dict File)
      → Staged tmp f d e
      → Staged tmp
          (record f { content = f.content ++ part; synced = false })
          d
          (perform tmp (appends part) e)
  unfolding perform
  appended-Staged part f e s =
      let longer = record f { content = f.content ++ part; synced = false } in
      record {
        held = ground (arith, s.held, get-set tmp tmp longer e);
        others = λ j apart. ground (arith, s.held, s.others j apart, get-set tmp j longer e);
      }

  moded-Staged :
      (mode : ℕ) (f : File) (e : Dict File)
      → Staged tmp f d e
      → Staged tmp (record f { mode = mode }) d (perform tmp (sets_mode mode) e)
  unfolding perform
  moded-Staged mode f e s =
      let changed = record f { mode = mode } in
      record {
        held = ground (arith, s.held, get-set tmp tmp changed e);
        others = λ j apart. ground (arith, s.held, s.others j apart, get-set tmp j changed e);
      }

  synced-Staged :
      (f : File) (e : Dict File)
      → Staged tmp f d e
      → Staged tmp (record f { synced = true }) d (perform tmp syncs e)
  unfolding perform
  synced-Staged f e s =
      let changed = record f { synced = true } in
      record {
        held = ground (arith, s.held, get-set tmp tmp changed e);
        others = λ j apart. ground (arith, s.held, s.others j apart, get-set tmp j changed e);
      }

  -- `unlink` brings the folder back; without it the other files are as they were
  unlinked :
      (works : Bool) (f : File) (e : Dict File) (j : Bytes)
      → Staged tmp f d e
      → get tmp d ≡ none
      → (tmp ≢ j) ⊎ (works ≡ true)
      → get j (if works then erase tmp e else e) ≡ get j d
  unlinked true f e j s fresh apart = ground (arith, s.others j, get-erase tmp j e)
  unlinked false f e j s fresh (inl apart) = s.others j apart
  unlinked false f e j s fresh (inr absurdity) = absurd (ground (arith, absurdity))

  replaced :
      (f : File) (e : Dict File) (name j : Bytes)
      → Staged tmp f d e
      → get tmp d ≡ none
      → get j (perform tmp (replaces name) e) ≡ (if name == j then some f else get j d)
  unfolding perform
  replaced f e name j s fresh =
      ground (arith, s.held, s.others j, get-set name j f (erase tmp e), get-erase tmp j e)

  module _ (name content : Bytes) (mode : ℕ) (fresh : get tmp d ≡ none) where
    abbrev pub whole : File
    whole = record { content = content; mode = mode; synced = true }

    filled :
        (part : Bytes)
        → Staged tmp
            (record { content = part; mode = owner_only; synced = false })
            d
            (perform_all tmp (creates ∷ appends part ∷ []) d)
    unfolding perform_all
    filled part =
        appended-Staged part (record { content = []; mode = owner_only; synced = false })
          (perform tmp creates d) created-Staged

    brought :
        Staged tmp
          (record { content = content; mode = owner_only; synced = true })
          d
          (perform_all tmp (creates ∷ appends content ∷ syncs ∷ []) d)
    unfolding perform_all
    brought =
        synced-Staged (record { content = content; mode = owner_only; synced = false })
          (perform_all tmp (creates ∷ appends content ∷ []) d) (filled content)

    ready :
        Staged tmp whole d
          (perform_all tmp (creates ∷ appends content ∷ syncs ∷ sets_mode mode ∷ []) d)
    unfolding perform_all
    ready =
        moded-Staged mode (record { content = content; mode = owner_only; synced = true })
          (perform_all tmp (creates ∷ appends content ∷ syncs ∷ []) d) brought

    pub written :
        (fault : Fault) (j : Bytes)
        → (tmp ≢ j) ⊎ (unlinks fault ≡ true)
        → get j (write_under fault tmp name content mode d).1 ≡ (
            if succeeded (write_under fault tmp name content mode d).0 && name == j
            then some whole
            else get j d)
    unfolding write_under perform_all unlinks
    written smooth j apart = replaced whole _ name j ready fresh
    written at_create j apart = refl
    written (at_write part works) j apart = unlinked works _ _ j (filled part) fresh apart
    written (at_sync works) j apart = unlinked works _ _ j (filled content) fresh apart
    written (at_mode works) j apart = unlinked works _ _ j brought fresh apart
    written (at_replace works) j apart = unlinked works _ _ j ready fresh apart

    -- the calls after the first
    abbrev remaining_calls : List Bytes → List SystemCall
    remaining_calls parts = map appends parts ++ (syncs ∷ sets_mode mode ∷ replaces name ∷ [])

    finished :
        (f : File) (e : Dict File)
        → Staged tmp f d e
        → get name
            (perform tmp (replaces name) (perform tmp (sets_mode mode) (perform tmp syncs e)))
          ≡ some (record { content = f.content ++ []; mode = mode; synced = true })
    finished f e s = ground (
      arith,
      replaced (record f { mode = mode; synced = true })
          (perform tmp (sets_mode mode) (perform tmp syncs e)) name name
          (moded-Staged mode (record f { synced = true }) (perform tmp syncs e)
            (synced-Staged f e s))
          fresh,
      append-nil f.content,
    )

    pub cut_off_after :
        (parts : List Bytes) (n : ℕ) (f : File) (e : Dict File)
        → Staged tmp f d e
        → tmp ≢ name
        → (get name (perform_all tmp (take n (remaining_calls parts)) e) ≡ get name d)
          ⊎ (get name (perform_all tmp (take n (remaining_calls parts)) e)
              ≡ some (record { content = f.content ++ concat parts; mode = mode; synced = true }))
    unfolding perform_all
    cut_off_after parts zero f e s other = inl (s.others name other)
    cut_off_after [] (suc zero) f e s other = inl ((synced-Staged f e s).others name other)
    cut_off_after [] (suc (suc zero)) f e s other = inl (
        (moded-Staged mode (record f { synced = true }) (perform tmp syncs e)
            (synced-Staged f e s)).others
          name other)
    cut_off_after [] (suc (suc (suc zero))) f e s other = inr (finished f e s)
    cut_off_after [] (suc (suc (suc (suc n)))) f e s other = inr (finished f e s)
    cut_off_after (part ∷ parts) (suc n) f e s other =
        rw (sym (append_assoc f.content part (concat parts))) (
          cut_off_after parts n (record f { content = f.content ++ part; synced = false })
            (perform tmp (appends part) e) (appended-Staged part f e s) other)
