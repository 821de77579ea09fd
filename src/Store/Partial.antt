-- ===== src/Store/Partial.antt =====
-- A logic for what holds of the disk when a procedure is done, whatever faults it met on the way: of
-- one that fails or breaks off it says nothing.
pub mod Writes
use tlsrpt_digest.Base.{
  ◌≡◌, refl, sym, subst, Bool, true, false, List, [], ◌∷◌, Option, none, some, if◌then◌else◌,
  if_both,
}
use tlsrpt_digest.Store.Types.{Disk, StoreError}
use tlsrpt_digest.Store.Io.{
  World, Fault, pass, fail, crash, Outcome, done, failed, crashed, M, pure, throw, syscall, effect,
  look, try_call, ◌>>=◌,
}
use tlsrpt_digest.Store.Untouched.{Untouched, Any}
use tlsrpt_digest.Store.Sentinel.{FileStore, is_read_only, unless_read_only}

abbrev pub Finishes : {A : Type 0} → (A → Disk → Type 0) → Outcome A → World → Type 0
Finishes Q (done a) w = Q a w.disk
Finishes Q (failed e) w = Unit
Finishes Q crashed w = Unit

pub record Partial {A : Type 0} (P : Disk → Type 0) (m : M A) (Q : A → Disk → Type 0) : Type 0 where
  pub at : (w : World) → P w.disk → Finishes Q (m w).0 (m w).1

module _ {A : Type 0} {P : Disk → Type 0} {Q : A → Disk → Type 0} where
  pub Partial-pure : (a : A) → ((d : Disk) → P d → Q a d) → Partial P (pure a) Q
  unfolding pure
  Partial-pure a h = record { at = λ w p. h w.disk p }

  pub Partial-throw : (e : StoreError) → Partial P (throw e) Q
  unfolding throw
  Partial-throw e = record { at = λ w p. tt }

  pub Partial-if :
      (b : Bool) {m n : M A}
      → (b ≡ true → Partial P m Q)
      → (b ≡ false → Partial P n Q)
      → Partial P (if b then m else n) Q
  Partial-if b h k = if_both (λ m. Partial P m Q) b h k

module _ (Q : Unit {0} → Disk → Type 0) where
  effected :
      (f : Disk → Disk) (d : Disk) (fs : List Fault)
      → Q tt (f d)
      → let r = effect f (record { disk = d; faults = fs }) in Finishes Q r.0 r.1
  unfolding syscall
  effected f d [] q = q
  effected f d (pass ∷ fs) q = q
  effected f d (fail x ∷ fs) q = tt
  effected f d (crash x ∷ fs) q = tt

module _ {A : Type 0} (Q : A → Disk → Type 0) where
  looked :
      (f : Disk → A) (d : Disk) (fs : List Fault)
      → Q (f d) d
      → let r = look f (record { disk = d; faults = fs }) in Finishes Q r.0 r.1
  unfolding syscall
  looked f d [] q = q
  looked f d (pass ∷ fs) q = q
  looked f d (fail x ∷ fs) q = tt
  looked f d (crash x ∷ fs) q = tt

module _ {P : Disk → Type 0} where
  pub Partial-effect :
      {Q : Unit {0} → Disk → Type 0} (f : Disk → Disk)
      → ((d : Disk) → P d → Q tt (f d))
      → Partial P (effect f) Q
  Partial-effect {Q} f h = record { at = λ w p. effected Q f w.disk w.faults (h w.disk p) }

  pub Partial-look :
      {A : Type 0} {Q : A → Disk → Type 0} (f : Disk → A)
      → ((d : Disk) → P d → Q (f d) d)
      → Partial P (look f) Q
  Partial-look {A} {Q} f h = record { at = λ w p. looked Q f w.disk w.faults (h w.disk p) }

module _ {A B : Type 0} (R : A → Disk → Type 0) (Q : B → Disk → Type 0) where
  continues :
      (f : A → M B) (r : Outcome A) (w : World)
      → ((a : A) → Partial (R a) (f a) Q)
      → Finishes R r w
      → let s = ((λ _. (r, w)) >>= f) w in Finishes Q s.0 s.1
  unfolding ◌>>=◌
  continues f (done a) w k h = (k a).at w h
  continues f (failed e) w k h = tt
  continues f crashed w k h = tt

module _ {A B : Type 0} {P : Disk → Type 0} (R : A → Disk → Type 0) {Q : B → Disk → Type 0} where
  pub Partial-bind :
      (m : M A) (f : A → M B)
      → Partial P m R
      → ((a : A) → Partial (R a) (f a) Q)
      → Partial P (m >>= f) Q
  unfolding ◌>>=◌
  Partial-bind m f h k = record { at = λ w p. continues R Q f (m w).0 (m w).1 k (h.at w p) }

module _ {A : Type 0} {P : Disk → Type 0} {Q : A → Disk → Type 0} where
  pub Partial-unless_read_only :
      (st : FileStore) {m : M A} → Partial P m Q → Partial P (unless_read_only st m) Q
  unfolding unless_read_only
  Partial-unless_read_only st h = Partial-if (is_read_only st.mode) (λ _. Partial-throw _) (λ _. h)

module _ {A : Type 0} (P : Disk → Type 0) where
  tried :
      (d : Disk) (r : Outcome A) (w : World)
      → w.disk ≡ d
      → P d
      → let x = try_call (λ _. (r, w)) w in Finishes (λ _. P) x.0 x.1
  unfolding try_call
  tried d (done a) w e h = subst P (sym e) h
  tried d (failed x) w e h = subst P (sym e) h
  tried d crashed w e h = tt

  -- a call whose error is looked at, and which only looks
  pub Partial-try_call : (m : M A) → Untouched Any m → Partial P (try_call m) (λ _. P)
  unfolding try_call
  Partial-try_call m u = record { at = λ w p. tried w.disk (m w).0 (m w).1 ((u.at w).0) p }

module _ {A : Type 0} {P : Disk → Type 0} {Q : A → Disk → Type 0} where
  -- a fact on a value is one on every disk
  pub Partial-given : {X : Type 0} {m : M A} → (X → Partial P m Q) → Partial (λ d. P d × X) m Q
  Partial-given k = record { at = λ w p. (k p.1).at w p.0 }

module _ {A : Type 0} where
  whatever : (r : Outcome A) (w : World) → Finishes (λ _ _. Unit {0}) r w
  whatever (done a) w = tt
  whatever (failed e) w = tt
  whatever crashed w = tt

  pub Partial-any : {P : Disk → Type 0} (m : M A) → Partial P m (λ _ _. Unit {0})
  Partial-any m = record { at = λ w p. whatever (m w).0 (m w).1 }
