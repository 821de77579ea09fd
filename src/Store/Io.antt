-- ===== src/Store/Io.antt =====
-- The operating system under internal/store: each system call takes the next entry of a fault
-- script. It may return an error, or the process may stop at it; an empty script is a run without
-- faults. os.RemoveAll can leave a part of the directory behind when it does not succeed.
use tlsrpt_digest.Base.{Bool, Option, none, some, List, [], ◌∷◌, if◌then◌else◌, ◌⊎◌, inl, inr}
use tlsrpt_digest.Store.Types.{Disk, Staging, StoreError, io_error}

-- what an interrupted os.RemoveAll of the staging directory had removed
pub record Damage : Type 0 where
  pub data_file : Bool
  pub emails : Bool

pub data Fault : Type 0 where
  pass : Fault
  fail : Damage → Fault
  crash : Damage → Fault

pub record World : Type 0 where
  pub disk : Disk
  pub faults : List Fault

pub data Outcome (A : Type 0) : Type 0 where
  done : A → Outcome A
  failed : StoreError → Outcome A
  crashed : Outcome A

-- A procedure of the store: a failed one has changed the disk up to the failure.
abbrev pub M : Type 0 → Type 0
M A = World → Outcome A × World

module _ {A : Type 0} where
  unfoldable pub pure : A → M A
  pure a w = (done a, w)

  unfoldable pub throw : StoreError → M A
  throw e w = (failed e, w)

  -- what a call that the system carries out gives; it may be refused in this state of the disk
  abbrev pub settle : Disk → List Fault → Option (A × Disk) → Outcome A × World
  settle d rest none = (failed io_error, record { disk = d; faults = rest })
  settle d rest (some (a, d')) = (done a, record { disk = d'; faults = rest })

  -- the result of a system call, given its fault: its effect on the disk when it passes, and the
  -- part of the effect that is left behind when it does not
  abbrev answer :
      (Damage → Disk → Disk)
      → (Disk → Option (A × Disk))
      → Disk
      → List Fault
      → Fault
      → Outcome A × World
  answer part act d rest pass = settle d rest (act d)
  answer part act d rest (fail x) = (failed io_error, record { disk = part x d; faults = rest })
  answer part act d rest (crash x) = (crashed, record { disk = part x d; faults = rest })

  abbrev answer_next :
      (Damage → Disk → Disk) → (Disk → Option (A × Disk)) → Disk → List Fault → Outcome A × World
  answer_next part act d [] = answer part act d [] pass
  answer_next part act d (f ∷ rest) = answer part act d rest f

  -- `act` gives `none` where the system refuses the call in this state of the disk
  unfoldable pub syscall : (Damage → Disk → Disk) → (Disk → Option (A × Disk)) → M A
  syscall part act w = answer_next part act w.disk w.faults

-- a call whose effect is all or nothing, such as os.Rename; atomicWriteFile is one too, since its
-- effect is that of the rename at its end
abbrev pub effect : (Disk → Disk) → M Unit
effect f = syscall (λ _ d. d) (λ d. some (tt, f d))

-- a call that only looks: os.Stat, os.ReadFile
abbrev pub look : {A : Type 0} → (Disk → A) → M A
look f = syscall (λ _ d. d) (λ d. some (f d, d))

abbrev pub with_disk : {A : Type 0} → Disk → Option A → Option (A × Disk)
with_disk d none = none
with_disk d (some a) = some (a, d)

-- a call that only looks, and is refused where there is nothing: os.ReadFile of an absent file
abbrev pub look_some : {A : Type 0} → (Disk → Option A) → M A
look_some f = syscall (λ _ d. d) (λ d. with_disk d (f d))

module _ {A B : Type 0} where
  abbrev continue : Outcome A → (A → M B) → M B
  continue (done a) f w = f a w
  continue (failed e) f w = (failed e, w)
  continue crashed f w = (crashed, w)

  infixl 5 ◌>>=◌ ◌>>◌
  unfoldable pub ◌>>=◌ : M A → (A → M B) → M B
  ◌>>=◌ m f w = let (r, w') = m w in continue r f w'

  abbrev pub ◌>>◌ : M A → M B → M B
  m >> n = m >>= λ _. n

abbrev ignore : Outcome Unit → Outcome Unit
ignore (failed e) = done tt
ignore r = r

-- `if err := m(); err != nil { slog.Warn(…) }`
unfoldable pub best_effort : M Unit → M Unit
best_effort m w = let (r, w') = m w in (ignore r, w')

-- a call whose error is looked at
unfoldable pub try_call : {A : Type 0} → M A → M (StoreError ⊎ A)
try_call m w =
    let (r, w') = m w in
    elim r [ done a ↦ (done (inr a), w') | failed e ↦ (done (inl e), w') | crashed ↦ (crashed, w') ]

-- what is left of the staging directory when its removal is interrupted
abbrev pub strip : Damage → Option Staging → Option Staging
strip x none = none
strip x (some s) = some (record {
  data_file = if x.data_file then none else s.data_file;
  emails = if x.emails then none else s.emails;
})
