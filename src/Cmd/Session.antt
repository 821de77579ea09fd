-- ===== src/Cmd/Session.antt =====
-- A run of a command that reads mails: the store's procedures on a world, and a trace of what the
-- run asked of the mail server, notified and stored, the last event first. A run can stop early with
-- an exit code, or break off where a system call does. The error that Run returns beside its code is
-- left out, and so is what a failed notification logs. A store call that returned without error is
-- an event, since what comes after it relies on that.
pub mod Logic
pub mod Stable
pub mod Success
use tlsrpt_digest.Base.{ℕ, Bool, List, [], ◌∷◌, ◌⊎◌, inl, inr}
use tlsrpt_digest.Base.Time.{Time}
use tlsrpt_digest.Store.Types.{StoreError, EmailMeta, ReportInput}
use tlsrpt_digest.Store.Io.{World, Outcome, done, failed, crashed, M}
use tlsrpt_digest.Notify.Kinds.{SystemErrorKind, Warning, Alert}
use tlsrpt_digest.Cmd.Recover.{ExitCode}

pub data Event : Type 0 where
  connected closed : Event
  asked_meta : Time → Event
  asked_download asked_seen : List ℕ → Event
  warned : Warning → Event
  alerted : Alert → Event
  reported : SystemErrorKind → Event
  flushed : Bool → Event
  stored_metas : List EmailMeta → Event
  stored_reports : List ReportInput → Event
  logged_dry_run : ℕ → ℕ → List ℕ → Bool → Event

pub record Session : Type 0 where
  pub world : World
  pub trace : List Event

pub data Step (A : Type 0) : Type 0 where
  goes : A → Step A
  stops : ExitCode → Step A
  breaks : Step A

abbrev pub Run : Type 0 → Type 0
Run A = Session → Step A × Session

module _ {A : Type 0} where
  unfoldable pub return : A → Run A
  return a s = (goes a, s)

  unfoldable pub stop : ExitCode → Run A
  stop code s = (stops code, s)

  abbrev pub stepped : Outcome A → Step (StoreError ⊎ A)
  stepped (done a) = goes (inr a)
  stepped (failed e) = goes (inl e)
  stepped crashed = breaks

  -- a call of the store, whose error is looked at
  unfoldable pub call : M A → Run (StoreError ⊎ A)
  call m s = let (r, w) = m s.world in (stepped r, record s { world = w })

unfoldable pub emit : Event → Run Unit
emit e s = (goes tt, record s { trace = e ∷ s.trace })

module _ {A B : Type 0} where
  abbrev pub proceed : Step A → (A → Run B) → Run B
  proceed (goes a) f s = f a s
  proceed (stops code) f s = (stops code, s)
  proceed breaks f s = (breaks, s)

  infixl 5 ◌>>=◌ ◌>>◌
  unfoldable pub ◌>>=◌ : Run A → (A → Run B) → Run B
  ◌>>=◌ m f s = let (r, s') = m s in proceed r f s'

  abbrev pub ◌>>◌ : Run A → Run B → Run B
  m >> n = m >>= λ _. n

abbrev pub closed_after : {A : Type 0} → Step A → Session → Step A × Session
closed_after (goes a) s = (goes a, record s { trace = closed ∷ s.trace })
closed_after (stops code) s = (stops code, record s { trace = closed ∷ s.trace })
closed_after breaks s = (breaks, s)

-- `defer fetcher.Close()`, which a process that stops does not come to
unfoldable pub closing : {A : Type 0} → Run A → Run A
closing m s = let (r, s') = m s in closed_after r s'
