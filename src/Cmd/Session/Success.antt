-- ===== src/Cmd/Session/Success.antt =====
-- What holds of a session when a run goes on: of one that stops or breaks off nothing is said.
use tlsrpt_digest.Base.{arith, ◌≡◌, sym, subst, ◌⊎◌, inl, inr}
use tlsrpt_digest.Store.Types.{StoreError, Disk}
use tlsrpt_digest.Store.Io.{M, World, Outcome, done, failed, crashed}
use tlsrpt_digest.Store.Partial.{Partial, Finishes}
use tlsrpt_digest.Cmd.Session.{Session, Step, goes, stops, breaks, Run, call}
use tlsrpt_digest.Cmd.Session.Stable.{Stable}
use tlsrpt_digest.Cmd.Recover.{ExitCode, exit_ok}
use tlsrpt_digest.Cmd.Session.Logic.{Exit, Ends, Hoare, Hoare-call, Called}

-- nothing is said of a run that does not go on
abbrev pub Whatever : Exit → Session → Type 0
Whatever e s = Unit

abbrev pub On : (Disk → Type 0) → Session → Type 0
On P s = P s.world.disk

module _ {A : Type 0} (P : Disk → Type 0) (Q : A → Disk → Type 0) where
  -- a store call of which only the success matters
  abbrev pub Succeeds : StoreError ⊎ A → Session → Type 0
  Succeeds (inl e) s = Unit
  Succeeds (inr a) s = Q a s.world.disk

  pub finished :
      (s : Session) (r : Outcome A) (w : World)
      → Finishes Q r w
      → Called (λ x w. Succeeds x (record s { world = w })) (λ w. Unit) r w
  finished s (done a) w h = h
  finished s (failed e) w h = tt
  finished s crashed w h = tt

  pub call-Hoare : (m : M A) → Partial P m Q → Hoare (On P) (call m) Succeeds Whatever
  call-Hoare m k = Hoare-call m (λ s h. finished s (m s.world).0 (m s.world).1 (k.at s.world h))

module _ (P : Disk → Type 0) where
  pub On-Stable : Stable (On P)
  On-Stable = record { event = λ e q s h. h; world = λ s w e h. subst P (sym e) h }

module _ {A : Type 0} where
  goes_on : (x : Step A) (s : Session) → Ends (λ _ _. Unit) Whatever x s
  goes_on (goes a) s = tt
  goes_on (stops code) s = tt
  goes_on breaks s = tt

  pub anyhow : {P : Session → Type 0} (m : Run A) → Hoare P m (λ _ _. Unit) Whatever
  anyhow m = record { at = λ s h. goes_on (m s).0 (m s).1 }

module _ {A : Type 0} (Q : A → Session → Type 0) (E : Exit → Session → Type 0) where
  forgets : (x : Step A) (s : Session) → Ends Q E x s → Ends Q Whatever x s
  forgets (goes a) s h = h
  forgets (stops code) s h = tt
  forgets breaks s h = tt

module _ {A : Type 0} {P : Session → Type 0} {Q : A → Session → Type 0} where
  pub Hoare-forget :
      {E : Exit → Session → Type 0} {m : Run A} → Hoare P m Q E → Hoare P m Q Whatever
  Hoare-forget {E} {m} h = record { at = λ s p. forgets Q E (m s).0 (m s).1 (h.at s p) }

module _ {A : Type 0} {P P' : Session → Type 0} {Q : A → Session → Type 0}
    {E : Exit → Session → Type 0} where
  pub Hoare-weaken : {m : Run A} → ((s : Session) → P' s → P s) → Hoare P m Q E → Hoare P' m Q E
  Hoare-weaken k h = record { at = λ s p. h.at s (k s p) }

module _ {A : Type 0} (Q Q' : A → Session → Type 0) where
  concluded :
      (x : Step A) (s : Session)
      → ((a : A) (s : Session) → Q a s → Q' a s)
      → Ends Q Whatever x s
      → Ends Q' Whatever x s
  concluded (goes a) s k h = k a s h
  concluded (stops code) s k h = tt
  concluded breaks s k h = tt

module _ {A : Type 0} {P : Session → Type 0} {Q Q' : A → Session → Type 0} where
  pub Hoare-conclude :
      {m : Run A}
      → ((a : A) (s : Session) → Q a s → Q' a s)
      → Hoare P m Q Whatever
      → Hoare P m Q' Whatever
  Hoare-conclude {m} k h = record { at = λ s p. concluded Q Q' (m s).0 (m s).1 k (h.at s p) }

-- what a run that ends with exit code 0 has
pub gone :
    (Q : Session → Type 0) (x : Step ExitCode) (s : Session)
    → Ends (λ _. Q) Whatever x s
    → x ≡ goes exit_ok
    → Q s
gone Q (goes code) s h e = h
gone Q (stops code) s h e = absurd (ground arith)
gone Q breaks s h e = absurd (ground arith)
