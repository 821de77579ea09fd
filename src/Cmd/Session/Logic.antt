-- ===== src/Cmd/Session/Logic.antt =====
-- What holds of a session after a run: `Q` where it goes on, and `E` where it stops or breaks off.
use tlsrpt_digest.Base.{
  ◌≡◌, Bool, true, false, if◌then◌else◌, ◌⊎◌, inl, inr, Option, none, some, ◌∷◌, if_both,
}
use tlsrpt_digest.Store.Types.{StoreError}
use tlsrpt_digest.Store.Io.{World, Outcome, done, failed, crashed, M}
use tlsrpt_digest.Cmd.Recover.{ExitCode}
use tlsrpt_digest.Cmd.Session.{
  Event, closed, Session, Step, goes, stops, breaks, Run, return, stop, call, stepped, emit, ◌>>=◌,
  closing, closed_after,
}

-- how a run ended early: with an exit code, or broken off
abbrev pub Exit : Type 0
Exit = Option ExitCode

abbrev pub Ends :
    {A : Type 0} → (A → Session → Type 0) → (Exit → Session → Type 0) → Step A → Session → Type 0
Ends Q E (goes a) s = Q a s
Ends Q E (stops code) s = E (some code) s
Ends Q E breaks s = E none s

pub record Hoare {A : Type 0} (P : Session → Type 0) (m : Run A) (Q : A → Session → Type 0)
    (E : Exit → Session → Type 0) : Type 0 where
  pub at : (s : Session) → P s → Ends Q E (m s).0 (m s).1

module _ {A : Type 0} {P : Session → Type 0} {Q : A → Session → Type 0}
    {E : Exit → Session → Type 0} where
  pub Hoare-return : (a : A) → ((s : Session) → P s → Q a s) → Hoare P (return a) Q E
  unfolding return
  Hoare-return a h = record { at = λ s p. h s p }

  pub Hoare-stop :
      (code : ExitCode) → ((s : Session) → P s → E (some code) s) → Hoare P (stop code) Q E
  unfolding stop
  Hoare-stop code h = record { at = λ s p. h s p }

  pub Hoare-if :
      (b : Bool) {m n : Run A}
      → (b ≡ true → Hoare P m Q E)
      → (b ≡ false → Hoare P n Q E)
      → Hoare P (if b then m else n) Q E
  Hoare-if b h k = if_both (λ m. Hoare P m Q E) b h k

module _ {P : Session → Type 0} {Q : Unit {0} → Session → Type 0}
    {E : Exit → Session → Type 0} where
  pub Hoare-emit :
      (e : Event)
      → ((s : Session) → P s → Q tt (record s { trace = e ∷ s.trace }))
      → Hoare P (emit e) Q E
  unfolding emit
  Hoare-emit e h = record { at = λ s p. h s p }

module _ {A B : Type 0} (R : A → Session → Type 0) (Q : B → Session → Type 0)
    (E : Exit → Session → Type 0) where
  proceeds :
      (f : A → Run B) (r : Step A) (s : Session)
      → ((a : A) → Hoare (R a) (f a) Q E)
      → Ends R E r s
      → let x = ((λ _. (r, s)) >>= f) s in Ends Q E x.0 x.1
  unfolding ◌>>=◌
  proceeds f (goes a) s k h = (k a).at s h
  proceeds f (stops code) s k h = h
  proceeds f breaks s k h = h

module _ {A B : Type 0} {P : Session → Type 0} (R : A → Session → Type 0) {Q : B → Session → Type 0}
    {E : Exit → Session → Type 0} where
  pub Hoare-bind :
      (m : Run A) (f : A → Run B)
      → Hoare P m R E
      → ((a : A) → Hoare (R a) (f a) Q E)
      → Hoare P (m >>= f) Q E
  unfolding ◌>>=◌
  Hoare-bind m f h k = record { at = λ s p. proceeds R Q E f (m s).0 (m s).1 k (h.at s p) }

-- what holds after a call of the store, by what it gave
abbrev pub Called :
    {A : Type 0} → (StoreError ⊎ A → World → Type 0) → (World → Type 0) → Outcome A → World → Type 0
Called Q E (done a) w = Q (inr a) w
Called Q E (failed e) w = Q (inl e) w
Called Q E crashed w = E w

module _ {A : Type 0} (Q : StoreError ⊎ A → Session → Type 0) (E : Exit → Session → Type 0) where
  called :
      (s : Session) (r : Outcome A) (w : World)
      → Called (λ x w. Q x (record s { world = w })) (λ w. E none (record s { world = w })) r w
      → Ends Q E (stepped r) (record s { world = w })
  called s (done a) w h = h
  called s (failed e) w h = h
  called s crashed w h = h

module _ {A : Type 0} {P : Session → Type 0} {Q : StoreError ⊎ A → Session → Type 0}
    {E : Exit → Session → Type 0} where
  pub Hoare-call :
      (m : M A)
      → ((s : Session)
          → P s
          → Called
              (λ x w. Q x (record s { world = w }))
              (λ w. E none (record s { world = w }))
              (m s.world).0
              (m s.world).1)
      → Hoare P (call m) Q E
  unfolding call
  Hoare-call m h = record { at = λ s p. called Q E s (m s.world).0 (m s.world).1 (h s p) }

module _ {A : Type 0} (Q : A → Session → Type 0) (E : Exit → Session → Type 0) where
  closes :
      (r : Step A) (s : Session)
      → ((a : A) (s : Session) → Q a s → Q a (record s { trace = closed ∷ s.trace }))
      → ((e : Exit) (s : Session) → E e s → E e (record s { trace = closed ∷ s.trace }))
      → Ends Q E r s
      → let x = closed_after r s in Ends Q E x.0 x.1
  closes (goes a) s q e h = q a s h
  closes (stops code) s q e h = e (some code) s h
  closes breaks s q e h = h

module _ {A : Type 0} {P : Session → Type 0} {Q : A → Session → Type 0}
    {E : Exit → Session → Type 0} where
  -- the end of a session with the server keeps what it can
  pub Hoare-closing :
      (m : Run A)
      → ((a : A) (s : Session) → Q a s → Q a (record s { trace = closed ∷ s.trace }))
      → ((e : Exit) (s : Session) → E e s → E e (record s { trace = closed ∷ s.trace }))
      → Hoare P m Q E
      → Hoare P (closing m) Q E
  unfolding closing
  Hoare-closing m q e h = record { at = λ s p. closes Q E (m s).0 (m s).1 q e (h.at s p) }

-- what a run gives, whatever it met
abbrev pub Anywhere : Session → Type 0
Anywhere s = Unit

abbrev pub Gives : {A : Type 0} → (A → Type 0) → Run A → Type 0
Gives R m = Hoare Anywhere m (λ a _. R a) (λ _ _. Unit)

module _ {A : Type 0} (R : A → Type 0) (Q : A → Session → Type 0)
    (E : Exit → Session → Type 0) where
  both :
      (x : Step A) (s : Session)
      → Ends Q E x s
      → Ends (λ a _. R a) (λ _ _. Unit) x s
      → Ends (λ a s. Q a s × R a) E x s
  both (goes a) s h k = (h, k)
  both (stops code) s h k = h
  both breaks s h k = h

module _ {A : Type 0} {P : Session → Type 0} {Q : A → Session → Type 0}
    {E : Exit → Session → Type 0} (R : A → Type 0) where
  pub Hoare-with : (m : Run A) → Hoare P m Q E → Gives R m → Hoare P m (λ a s. Q a s × R a) E
  Hoare-with m h k = record { at = λ s p. both R Q E (m s).0 (m s).1 (h.at s p) (k.at s tt) }

module _ {A : Type 0} where
  anything : (x : Step A) (s : Session) → Ends (λ (a : A) _. Unit {0}) (λ _ _. Unit {0}) x s
  anything (goes a) s = tt
  anything (stops code) s = tt
  anything breaks s = tt

  pub Gives-any : (m : Run A) → Gives (λ _. Unit) m
  Gives-any m = record { at = λ s p. anything (m s).0 (m s).1 }

module _ {A B : Type 0} (R : A → Type 0) {S : B → Type 0} where
  pub Gives-bind :
      (m : Run A) (f : A → Run B) → Gives R m → ((a : A) → R a → Gives S (f a)) → Gives S (m >>= f)
  Gives-bind m f h k = Hoare-bind (λ a _. R a) m f h (λ a. record { at = λ s x. (k a x).at s tt })

module _ {A : Type 0} {R : A → Type 0} where
  pub Gives-return : (a : A) → R a → Gives R (return a)
  Gives-return a h = Hoare-return a (λ _ _. h)

  pub Gives-stop : (code : ExitCode) → Gives R (stop code)
  Gives-stop code = Hoare-stop code (λ _ _. tt)

module _ {A : Type 0} {P : Session → Type 0} {Q : A → Session → Type 0}
    {E : Exit → Session → Type 0} where
  -- a fact on a value is one on every session
  pub Hoare-given : {X : Type 0} {m : Run A} → (X → Hoare P m Q E) → Hoare (λ s. P s × X) m Q E
  Hoare-given k = record { at = λ s p. (k p.1).at s p.0 }
