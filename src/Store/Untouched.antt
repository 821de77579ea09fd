-- ===== src/Store/Untouched.antt =====
-- Procedures that leave the disk as it is, whatever faults they meet, and what their results satisfy.
use tlsrpt_digest.Base.{
  ◌≡◌, refl, ◌∙◌, Bool, true, false, Option, none, some, List, [], ◌∷◌, if◌then◌else◌,
}
use tlsrpt_digest.Store.Types.{Disk, StoreError}
use tlsrpt_digest.Store.Io.{
  World, Fault, pass, fail, crash, Outcome, done, failed, crashed, M, pure, throw, syscall, settle,
  look, look_some, with_disk, ◌>>=◌,
}

abbrev pub Returns : {A : Type 0} → (A → Type 0) → Outcome A → Type 0
Returns R (done a) = R a
Returns R (failed e) = Unit
Returns R crashed = Unit

pub record Untouched {A : Type 0} (R : A → Type 0) (m : M A) : Type 0 where
  pub at : (w : World) → ((m w).1.disk ≡ w.disk) × Returns R (m w).0

abbrev pub Any : {A : Type 0} → A → Type 0
Any a = Unit

module _ {A : Type 0} {R : A → Type 0} where
  pub Untouched-pure : (a : A) → R a → Untouched R (pure a)
  unfolding pure
  Untouched-pure a h = record { at = λ w. (refl, h) }

  pub Untouched-throw : (e : StoreError) → Untouched R (throw e)
  unfolding throw
  Untouched-throw e = record { at = λ w. (refl, tt) }

looked :
    {A : Type 0} (f : Disk → A) (d : Disk) (fs : List Fault)
    → ((look f (record { disk = d; faults = fs })).1.disk ≡ d)
      × Returns Any (look f (record { disk = d; faults = fs })).0
unfolding syscall
looked f d [] = (refl, tt)
looked f d (pass ∷ fs) = (refl, tt)
looked f d (fail x ∷ fs) = (refl, tt)
looked f d (crash x ∷ fs) = (refl, tt)

pub Untouched-look : {A : Type 0} (f : Disk → A) → Untouched Any (look f)
Untouched-look f = record { at = λ w. looked f w.disk w.faults }

looked_some :
    {A : Type 0} (f : Disk → Option A) (d : Disk) (rest : List Fault) (o : Option A)
    → let r = settle d rest (with_disk d o) in (r.1.disk ≡ d) × Returns Any r.0
looked_some f d rest none = (refl, tt)
looked_some f d rest (some a) = (refl, tt)

looks :
    {A : Type 0} (f : Disk → Option A) (d : Disk) (fs : List Fault)
    → let r = look_some f (record { disk = d; faults = fs }) in (r.1.disk ≡ d) × Returns Any r.0
unfolding syscall
looks f d [] = looked_some f d [] (f d)
looks f d (pass ∷ fs) = looked_some f d fs (f d)
looks f d (fail x ∷ fs) = (refl, tt)
looks f d (crash x ∷ fs) = (refl, tt)

pub Untouched-look_some : {A : Type 0} (f : Disk → Option A) → Untouched Any (look_some f)
Untouched-look_some f = record { at = λ w. looks f w.disk w.faults }

module _ {A B : Type 0} {R : B → Type 0} (Q : A → Type 0) where
  continued :
      (f : A → M B) (d : Disk) (r : Outcome A) (w : World)
      → ((a : A) → Q a → Untouched R (f a))
      → w.disk ≡ d
      → Returns Q r
      → let s = ((λ _. (r, w)) >>= f) w in (s.1.disk ≡ d) × Returns R s.0
  unfolding ◌>>=◌
  continued f d (done a) w k e q = let p = (k a q).at w in (p.0 ∙ e, p.1)
  continued f d (failed x) w k e q = (e, tt)
  continued f d crashed w k e q = (e, tt)

  pub Untouched-bind :
      (m : M A) (f : A → M B)
      → Untouched Q m
      → ((a : A) → Q a → Untouched R (f a))
      → Untouched R (m >>= f)
  unfolding ◌>>=◌
  Untouched-bind m f t k = record {
    at = λ w. let p = t.at w in continued f w.disk (m w).0 (m w).1 k p.0 p.1;
  }

module _ {A : Type 0} {R : A → Type 0} where
  pub Untouched-if :
      (b : Bool) {m n : M A} → Untouched R m → Untouched R n → Untouched R (if b then m else n)
  Untouched-if true t u = t
  Untouched-if false t u = u
