-- ===== src/Aidl/Duplicates.antt =====
-- Handles are copied file by file with `dup`: the copy has the same open files, and no file that was
-- open before is lost.
use platform_system_libfmq.Base.{ℕ, ◌≡◌, ◌≢◌, sym, ap, ◌∙◌, List, [], ◌∷◌, Option, none, some}
use platform_system_libfmq.Aidl.{Files, dup_all}

-- What is asked of `dup`, of a process that may open more files: `refers` is the open file that a
-- descriptor stands for, if any. The new descriptor was not in use, stands for the same file, and
-- nothing else changes.
pub record Dups (files : Files) : Type 0 where
  pub refers : ℕ → files.World → Option ℕ
  pub dup_new : (fd : ℕ) (w : files.World) → refers (files.dup fd w).0 w ≡ none
  pub dup_same :
      (fd file : ℕ) (w : files.World)
      → refers fd w ≡ some file
      → refers (files.dup fd w).0 (files.dup fd w).1 ≡ some file
  pub dup_other :
      (fd x : ℕ) (w : files.World)
      → x ≢ (files.dup fd w).0
      → refers x (files.dup fd w).1 ≡ refers x w

module _ (files : Files) (dups : Dups files) where
  open dups use {refers, dup_new, dup_same, dup_other}

  -- The descriptors stand for these files, one for one.
  abbrev pub Open : List ℕ → List ℕ → files.World → Type 0
  Open [] [] w = Unit
  Open [] (file ∷ fs) w = ⊥
  Open (fd ∷ fds) [] w = ⊥
  Open (fd ∷ fds) (file ∷ fs) w = (refers fd w ≡ some file) × Open fds fs w

  -- What is open in the first world is open in the second.
  abbrev pub Keeps : files.World → files.World → Type 0
  Keeps w w' = (x file : ℕ) → refers x w ≡ some file → refers x w' ≡ some file

  Keeps-Open : (fds fs : List ℕ) {w w' : files.World} → Keeps w w' → Open fds fs w → Open fds fs w'
  Keeps-Open [] [] keeps o = tt
  Keeps-Open [] (file ∷ fs) keeps o = o
  Keeps-Open (fd ∷ fds) [] keeps o = o
  Keeps-Open (fd ∷ fds) (file ∷ fs) keeps o = (keeps fd file o.0, Keeps-Open fds fs keeps o.1)

  dup-Keeps : (fd : ℕ) (w : files.World) → Keeps w (files.dup fd w).1
  dup-Keeps fd w x file e =
      dup_other fd x w (λ same. clash (sym e ∙ ap (λ y. refers y w) same ∙ dup_new fd w)) ∙ e
    where
      clash : some file ≡ none → ⊥
      clash h = cc

  pub dup_all-Open :
      (fds fs : List ℕ) (w : files.World)
      → Open fds fs w
      → Open (dup_all files fds w).0 fs (dup_all files fds w).1 × Keeps w (dup_all files fds w).1
  unfolding dup_all
  dup_all-Open [] fs w o = (o, λ x file e. e)
  dup_all-Open (fd ∷ fds) [] w o = absurd o
  dup_all-Open (fd ∷ fds) (file ∷ fs) w o =
      let (opened, kept) =
        dup_all-Open fds fs (files.dup fd w).1 (Keeps-Open fds fs (dup-Keeps fd w) o.1) in
      ((kept _ file (dup_same fd file w o.0), opened), λ x f e. kept x f (dup-Keeps fd w x f e))
