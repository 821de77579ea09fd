-- ===== src/Store/Triple.antt =====
-- A logic for procedures that may fail or stop at any system call. A triple says what holds of the
-- disk after a procedure is done (`Q`), what holds wherever it breaks off (`I`), and that it breaks
-- off only by a fault of the script: without faults it is done.
use tlsrpt_digest.Base.{◌≡◌, refl, ◌≢◌, Option, some, List, [], ◌∷◌}
use tlsrpt_digest.Store.Types.{Disk}
use tlsrpt_digest.Store.Io.{
  World, Damage, Fault, pass, fail, crash, Outcome, done, failed, crashed, M, settle, pure, syscall,
  effect, look, best_effort, ◌>>=◌,
}

-- `before` is the script as the procedure found it, and `after` what it left of it
abbrev pub Post :
    {A : Type 0} → (A → Disk → Type 0) → (Disk → Type 0) → List Fault → Outcome A → World → Type 0
Post Q I before (done a) w = Q a w.disk × (before ≡ [] → w.faults ≡ [])
Post Q I before (failed e) w = I w.disk × (before ≢ [])
Post Q I before crashed w = I w.disk × (before ≢ [])

pub record Triple {A : Type 0} (P : Disk → Type 0) (m : M A) (Q : A → Disk → Type 0)
    (I : Disk → Type 0) : Type 0 where
  pub at : (w : World) → P w.disk → Post Q I w.faults (m w).0 (m w).1

module _ {A : Type 0} {P : Disk → Type 0} {Q : A → Disk → Type 0} {I : Disk → Type 0} where
  pub Triple-pure : (a : A) → ((d : Disk) → P d → Q a d) → Triple P (pure a) Q I
  unfolding pure
  Triple-pure a h = record { at = λ w p. (h w.disk p, λ e. e) }

not_nil : (f : Fault) (rest : List Fault) → f ∷ rest ≢ []
not_nil f rest e = cc

-- a system call, given what `act` makes of the disk
module _ {A : Type 0} (Q : A → Disk → Type 0) (I : Disk → Type 0) (part : Damage → Disk → Disk)
    (act : Disk → Option (A × Disk)) (d : Disk) (a : A) (d' : Disk)
    (broken : (x : Damage) → I (part x d)) (ok : Q a d') where
  passed :
      (fs rest : List Fault) (o : Option (A × Disk))
      → (fs ≡ [] → rest ≡ [])
      → o ≡ some (a, d')
      → let r = settle d rest o in Post Q I fs r.0 r.1
  passed fs rest o q e = rw e (ok, q)

  syscall-Post :
      (faults : List Fault)
      → act d ≡ some (a, d')
      → let r = syscall part act (record { disk = d; faults = faults }) in Post Q I faults r.0 r.1
  unfolding syscall
  syscall-Post [] e = passed [] [] (act d) (λ q. q) e
  syscall-Post (pass ∷ rest) e =
      passed (pass ∷ rest) rest (act d) (λ q. absurd (not_nil pass rest q)) e
  syscall-Post (fail x ∷ rest) e = (broken x, not_nil (fail x) rest)
  syscall-Post (crash x ∷ rest) e = (broken x, not_nil (crash x) rest)

module _ {A : Type 0} {P : Disk → Type 0} {Q : A → Disk → Type 0} {I : Disk → Type 0} where
  -- a call that the system may refuse is made where it does not
  pub Triple-syscall :
      (part : Damage → Disk → Disk) (act : Disk → Option (A × Disk))
      → ((d : Disk) (x : Damage) → P d → I (part x d))
      → ((d : Disk) → P d → (a : A) × (d' : Disk) × (act d ≡ some (a, d')) × Q a d')
      → Triple P (syscall part act) Q I
  Triple-syscall part act broken ok = record {
    at = λ w p.
        let r = ok w.disk p in
        syscall-Post Q I part act w.disk r.0 r.1 (λ x. broken w.disk x p) r.3 w.faults r.2;
  }

module _ {P : Disk → Type 0} {I : Disk → Type 0} where
  -- a removal that an interruption leaves half done
  pub Triple-removal :
      {Q : Unit {0} → Disk → Type 0} (part : Damage → Disk → Disk) (f : Disk → Disk)
      → ((d : Disk) (x : Damage) → P d → I (part x d))
      → ((d : Disk) → P d → Q tt (f d))
      → Triple P (syscall part (λ d. some (tt, f d))) Q I
  Triple-removal part f broken ok = Triple-syscall _ _ broken (λ d p. (tt, f d, refl, ok d p))

  pub Triple-effect :
      {Q : Unit {0} → Disk → Type 0} (f : Disk → Disk)
      → ((d : Disk) → P d → I d)
      → ((d : Disk) → P d → Q tt (f d))
      → Triple P (effect f) Q I
  Triple-effect f keep ok = Triple-removal _ _ (λ d x. keep d) ok

  pub Triple-look :
      {A : Type 0} {Q : A → Disk → Type 0} (f : Disk → A)
      → ((d : Disk) → P d → I d)
      → ((d : Disk) → P d → Q (f d) d)
      → Triple P (look f) Q I
  Triple-look f keep ok = Triple-syscall _ _ (λ d x. keep d) (λ d p. (f d, d, refl, ok d p))

module _ {A : Type 0} (I : Disk → Type 0) (Q : A → Disk → Type 0) where
  earlier :
      (fs fs' : List Fault) (r : Outcome A) (w : World)
      → (fs ≡ [] → fs' ≡ [])
      → Post Q I fs' r w
      → Post Q I fs r w
  earlier fs fs' (done a) w q p = (p.0, λ e. p.1 (q e))
  earlier fs fs' (failed e) w q p = (p.0, λ n. p.1 (q n))
  earlier fs fs' crashed w q p = (p.0, λ n. p.1 (q n))

module _ {A B : Type 0} {I : Disk → Type 0} {Q : B → Disk → Type 0} (R : A → Disk → Type 0) where
  bind-Post :
      (f : A → M B) (fs : List Fault) (r : Outcome A) (w : World)
      → ((a : A) → Triple (R a) (f a) Q I)
      → Post R I fs r w
      → let s = ((λ _. (r, w)) >>= f) w in Post Q I fs s.0 s.1
  unfolding ◌>>=◌
  bind-Post f fs (done a) w k p = earlier I Q fs w.faults (f a w).0 (f a w).1 p.1 ((k a).at w p.0)
  bind-Post f fs (failed e) w k p = p
  bind-Post f fs crashed w k p = p

  pub Triple-bind :
      {P : Disk → Type 0} (m : M A) (f : A → M B)
      → Triple P m R I
      → ((a : A) → Triple (R a) (f a) Q I)
      → Triple P (m >>= f) Q I
  unfolding ◌>>=◌
  Triple-bind m f t k = record { at = λ w p. bind-Post f w.faults (m w).0 (m w).1 k (t.at w p) }

-- `I` is all that a procedure whose errors are ignored can rely on
module _ (I : Disk → Type 0) where
  best_effort-Post :
      (fs : List Fault) (r : Outcome Unit) (w : World)
      → Post (λ _. I) I fs r w
      → let s = best_effort (λ _. (r, w)) w in Post (λ _. I) I fs s.0 s.1
  unfolding best_effort
  best_effort-Post fs (done a) w p = p
  best_effort-Post fs (failed e) w p = (p.0, λ n. absurd (p.1 n))
  best_effort-Post fs crashed w p = p

module _ {I : Disk → Type 0} where
  pub Triple-best_effort :
      {P : Disk → Type 0} (m : M Unit) → Triple P m (λ _. I) I → Triple P (best_effort m) (λ _. I) I
  unfolding best_effort
  Triple-best_effort m t = record {
    at = λ w p. best_effort-Post I w.faults (m w).0 (m w).1 (t.at w p);
  }

module _ {A : Type 0} {Q : A → Disk → Type 0} {I : Disk → Type 0} where
  weaken-Post :
      {Q' : A → Disk → Type 0} {I' : Disk → Type 0}
      → ((a : A) (d : Disk) → Q a d → Q' a d)
      → ((d : Disk) → I d → I' d)
      → (fs : List Fault) (r : Outcome A) (w : World) → Post Q I fs r w
      → Post Q' I' fs r w
  weaken-Post q i fs (done a) w p = (q a w.disk p.0, p.1)
  weaken-Post q i fs (failed e) w p = (i w.disk p.0, p.1)
  weaken-Post q i fs crashed w p = (i w.disk p.0, p.1)

  -- the rule of consequence
  pub Triple-weaken :
      {P P' : Disk → Type 0} {Q' : A → Disk → Type 0} {I' : Disk → Type 0} {m : M A}
      → ((d : Disk) → P' d → P d)
      → ((a : A) (d : Disk) → Q a d → Q' a d)
      → ((d : Disk) → I d → I' d)
      → Triple P m Q I
      → Triple P' m Q' I'
  Triple-weaken {m} p q i t = record {
    at = λ w h. weaken-Post q i w.faults (m w).0 (m w).1 (t.at w (p w.disk h));
  }

  -- from a stronger assertion
  pub Triple-from :
      {P P' : Disk → Type 0} {m : M A}
      → ((d : Disk) → P' d → P d)
      → Triple P m Q I
      → Triple P' m Q I
  Triple-from p t = record { at = λ w h. t.at w (p w.disk h) }

  -- a fact that does not speak of the disk
  pub Triple-fact :
      {P : Disk → Type 0} {F : Type 0} {m : M A}
      → (F → Triple P m Q I)
      → Triple (λ d. P d × F) m Q I
  Triple-fact k = record { at = λ w h. (k h.1).at w h.0 }

  -- a procedure that is not reached
  pub Triple-absurd : {P : Disk → Type 0} {m : M A} → ((d : Disk) → P d → ⊥) → Triple P m Q I
  Triple-absurd k = record { at = λ w h. absurd (k w.disk h) }
