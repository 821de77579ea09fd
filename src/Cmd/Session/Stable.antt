-- ===== src/Cmd/Session/Stable.antt =====
-- What a run keeps when it only looks at the store and notifies: it does not change under the events
-- of these steps, nor with the script of faults.
use tlsrpt_digest.Base.{◌≡◌, refl, ℕ, Bool, true, false, if◌then◌else◌, String, List, [], ◌∷◌, ◌⊎◌}
use tlsrpt_digest.Store.Types.{StoreError}
use tlsrpt_digest.Store.Io.{World, Outcome, done, failed, crashed, M}
use tlsrpt_digest.Store.Untouched.{Untouched, Any}
use tlsrpt_digest.Tlsrpt.{Report, PolicyRecord, fails}
use tlsrpt_digest.Notify.Kinds.{WarningKind}
use tlsrpt_digest.Cmd.Recover.{ExitCode}
use tlsrpt_digest.Cmd.Session.{
  Event, asked_download, asked_seen, stored_metas, stored_reports, Session, Run, return, stop, call,
  emit, ◌>>=◌, closing,
}
use tlsrpt_digest.Cmd.Session.Logic.{
  Hoare, Hoare-return, Hoare-stop, Hoare-if, Hoare-emit, Hoare-bind, Hoare-call, Hoare-closing,
  Called,
}
use tlsrpt_digest.Cmd.Attachments.{log_policies, log_alerts, log_warn}

-- not a download, a mark, or a write of the store
abbrev pub is_quiet : Event → Bool
is_quiet (asked_download uids) = false
is_quiet (asked_seen uids) = false
is_quiet (stored_metas ms) = false
is_quiet (stored_reports rs) = false
is_quiet e = true

pub record Stable (I : Session → Type 0) : Type 0 where
  pub event :
      (e : Event) → is_quiet e ≡ true → (s : Session) → I s → I (record s { trace = e ∷ s.trace })
  pub world : (s : Session) (w : World) → w.disk ≡ s.world.disk → I s → I (record s { world = w })

-- `I` before, and after, however the run ends
abbrev pub Keeps : {A : Type 0} → (Session → Type 0) → Run A → Type 0
Keeps I m = Hoare I m (λ _. I) (λ _. I)

module _ {A B : Type 0} {I : Session → Type 0} where
  pub Keeps-bind :
      (m : Run A) (f : A → Run B) → Keeps I m → ((a : A) → Keeps I (f a)) → Keeps I (m >>= f)
  Keeps-bind m f h k = Hoare-bind (λ _. I) m f h k

module _ {A : Type 0} {I : Session → Type 0} where
  pub Keeps-return : (a : A) → Keeps I (return a)
  Keeps-return a = Hoare-return a (λ s h. h)

  pub Keeps-stop : (code : ExitCode) → Keeps I (stop {A = A} code)
  Keeps-stop code = Hoare-stop code (λ s h. h)

  pub Keeps-if : (b : Bool) {m n : Run A} → Keeps I m → Keeps I n → Keeps I (if b then m else n)
  Keeps-if b h k = Hoare-if b (λ _. h) (λ _. k)

module _ {I : Session → Type 0} (k : Stable I) where
  pub Keeps-emit : (e : Event) → is_quiet e ≡ true → Keeps I (emit e)
  Keeps-emit e q = Hoare-emit e (λ s h. k.event e q s h)

  looked :
      {A : Type 0} (s : Session) (r : Outcome A) (w : World)
      → w.disk ≡ s.world.disk
      → I s
      → Called
          (λ (x : StoreError ⊎ A) w. I (record s { world = w }))
          (λ w. I (record s { world = w }))
          r
          w
  looked s (done a) w e h = k.world s w e h
  looked s (failed x) w e h = k.world s w e h
  looked s crashed w e h = k.world s w e h

  pub Keeps-call : {A : Type 0} (m : M A) → Untouched Any m → Keeps I (call m)
  Keeps-call m u = Hoare-call m (λ s h. looked s (m s.world).0 (m s.world).1 ((u.at s.world).0) h)

  pub Keeps-closing : {A : Type 0} (m : Run A) → Keeps I m → Keeps I (closing m)
  Keeps-closing m h = Hoare-closing m (λ _ s. k.event _ refl s) (λ _ s. k.event _ refl s) h

  pub log_warn-Keeps :
      (kind : WarningKind) (uid v : ℕ) (id : String) → Keeps I (log_warn kind uid v id)
  unfolding log_warn
  log_warn-Keeps kind uid v id = Keeps-emit _ refl

  log_policies-Keeps : (r : Report) (ps : List PolicyRecord) → Keeps I (log_policies r ps)
  unfolding log_policies
  log_policies-Keeps r [] = Keeps-return tt
  log_policies-Keeps r (p ∷ ps) =
      let rest = log_policies-Keeps r ps in
      Keeps-if (fails p) (Keeps-bind _ _ (Keeps-emit _ refl) (λ _. rest)) rest

  pub log_alerts-Keeps : (r : Report) → Keeps I (log_alerts r)
  unfolding log_alerts
  log_alerts-Keeps r = log_policies-Keeps r r.policies
