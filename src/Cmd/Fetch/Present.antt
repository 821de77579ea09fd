-- ===== src/Cmd/Fetch/Present.antt =====
-- Which mails cmd/tlsrpt-digest/fetch.go finds in the store before it downloads any.
use tlsrpt_digest.Base.{
  ◌≡◌, refl, sym, subst, ℕ, Bool, true, ◌==◌, ◌&&◌, Option, none, some, ◌⊎◌, inl, inr, List, [],
  ◌∷◌, arith, String, Option-cases,
}
use tlsrpt_digest.Store.Types.{StoreError, EmailPath, Eml}
use tlsrpt_digest.Store.Emails.{build_email_path, read_eml, is_file, files}
use tlsrpt_digest.Cmd.Session.{Session, call}
use tlsrpt_digest.Cmd.Session.Logic.{Hoare, Hoare-return, Hoare-stop, Hoare-if, Hoare-bind}
use tlsrpt_digest.Cmd.Session.Stable.{Stable}
use tlsrpt_digest.Cmd.Fetch.{MessageMeta, FetchRunner, FetchMsgState, fail_with, fetch_email_path}
use tlsrpt_digest.Cmd.Fetch.{size_of, local_email_size}
use tlsrpt_digest.Notify.Kinds.{SystemErrorKind}
use tlsrpt_digest.Cmd.Fetch.Download.{sized, build_fetch_states}
use tlsrpt_digest.Cmd.Attachments.{log_warn}
use tlsrpt_digest.Notify.Kinds.{WarningKind}
use tlsrpt_digest.Cmd.Session.Stable.{log_warn-Keeps}
use tlsrpt_digest.Store.Partial.{Partial-look}
use tlsrpt_digest.Cmd.Session.Success.{Whatever, Succeeds, call-Hoare, anyhow, Hoare-forget}

pub fails-Hoare :
    {A : Type 0} {P : Session → Type 0} {Q : A → Session → Type 0} (r : FetchRunner)
    (kind : SystemErrorKind)
    → Hoare P (fail_with r kind) Q Whatever
fails-Hoare r kind = Hoare-bind (λ _ _. Unit) _ _ (anyhow _) (λ _. Hoare-stop _ (λ _ _. tt))

-- the file of a message
abbrev pub is_saved : ℕ → MessageMeta → Option (List Eml) → Bool
is_saved v m es = is_file (build_email_path m.uid v m.date) (files es)

abbrev pub all_saved : ℕ → List MessageMeta → Option (List Eml) → Bool
all_saved v [] es = true
all_saved v (m ∷ ms) es = is_saved v m es && all_saved v ms es

-- a state that says that there is a file is right
abbrev Right : ℕ → FetchMsgState → Option (List Eml) → Type 0
Right v s es = s.eml_existed_before ≡ true → is_saved v s.meta es ≡ true

abbrev pub AllRight : ℕ → List FetchMsgState → Option (List Eml) → Type 0
AllRight v [] es = Unit
AllRight v (s ∷ states) es = Right v s es × AllRight v states es

abbrev pub Mails : (Option (List Eml) → Type 0) → Session → Type 0
Mails K s = K s.world.disk.emails

abbrev SizeRight : ℕ → MessageMeta → Option ℕ → Option (List Eml) → Type 0
SizeRight v m none es = Unit
SizeRight v m (some n) es = is_saved v m es ≡ true

found_size :
    (p : EmailPath) (es : List Eml) (n : ℕ) → size_of (read_eml p es) ≡ some n → is_file p es ≡ true
found_size p es n e = elim (Option-cases (read_eml p es)) [
  | inl k ↦ absurd (ground arith)
  | inr (raw, k) ↦ ground arith
]

sizes :
    (v : ℕ) (m : MessageMeta) (es : Option (List Eml)) (o : Option ℕ)
    → size_of (read_eml (fetch_email_path m.uid v m.date) (files es)) ≡ o
    → SizeRight v m o es
sizes v m es none e = tt
sizes v m es (some n) e = found_size (build_email_path m.uid v m.date) (files es) n e

pub Mails-Stable : (K : Option (List Eml) → Type 0) → Stable (Mails K)
Mails-Stable K = record {
  event = λ e q s h. h;
  world = λ s w e h. subst (λ d. K d.emails) (sym e) h;
}

pub warns-Hoare :
    (K : Option (List Eml) → Type 0) (kind : WarningKind) (uid v : ℕ) (id : String)
    → Hoare (Mails K) (log_warn kind uid v id) (λ _. Mails K) Whatever
warns-Hoare K kind uid v id = Hoare-forget (log_warn-Keeps (Mails-Stable K) kind uid v id)

module _ (r : FetchRunner) (v : ℕ) where
  module _ (K : Option (List Eml) → Type 0) (m : MessageMeta) where
    abbrev Sized : StoreError ⊎ Option ℕ → Session → Type 0
    Sized = Succeeds (λ d. K d.emails) (λ o d. K d.emails × SizeRight v m o d.emails)

    local_size-Hoare : Hoare (Mails K) (call (local_email_size m.uid v m.date)) Sized Whatever
    unfolding local_email_size
    local_size-Hoare = call-Hoare _ _ _ (Partial-look _ (λ d k. (k, sizes v m d.emails _ refl)))

    sized-Hoare :
        (x : StoreError ⊎ Option ℕ)
        → Hoare
            (Sized x)
            (sized r m v x)
            (λ state s. K s.world.disk.emails × Right v state s.world.disk.emails)
            Whatever
    sized-Hoare (inl e) = Hoare-stop _ (λ _ _. tt)
    sized-Hoare (inr none) = Hoare-return _ (λ s h. (h.0, λ e. absurd (ground arith)))
    sized-Hoare (inr (some n)) =
        Hoare-if (n == m.size) (λ _. Hoare-return _ (λ s h. (h.0, λ _. h.1)))
          (λ _.
            Hoare-bind (λ _ s. K s.world.disk.emails × (is_saved v m s.world.disk.emails ≡ true)) _
              _ (warns-Hoare (λ es. K es × (is_saved v m es ≡ true)) _ _ _ _)
              (λ _. Hoare-return _ (λ s h. (h.0, λ _. h.1))))

  pub build_fetch_states-Right :
      (K : Option (List Eml) → Type 0) (ms : List MessageMeta)
      → Hoare
          (Mails K)
          (build_fetch_states r ms v)
          (λ states s. K s.world.disk.emails × AllRight v states s.world.disk.emails)
          Whatever
  unfolding build_fetch_states
  build_fetch_states-Right K [] = Hoare-return [] (λ s h. (h, tt))
  build_fetch_states-Right K (m ∷ ms) = Hoare-bind (Sized K m) _ _ (local_size-Hoare K m) (λ x.
      Hoare-bind (λ state s. K s.world.disk.emails × Right v state s.world.disk.emails) _ _
        (sized-Hoare K m x)
        (λ state.
          Hoare-bind
            (λ states s.
              (K s.world.disk.emails × Right v state s.world.disk.emails)
              × AllRight v states s.world.disk.emails)
            _ _ (build_fetch_states-Right (λ es. K es × Right v state es) ms)
            (λ states. Hoare-return (state ∷ states) (λ s h. (h.0.0, (h.0.1, h.1))))))
