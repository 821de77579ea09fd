-- ===== src/Cmd/Fetch/Metas.antt =====
-- The messages that cmd/tlsrpt-digest/fetch.go indexes when it goes on are all that the server gave.
use tlsrpt_digest.Base.{
  ◌≡◌, refl, ap, ℕ, true, ◌==◌, Option, none, some, ◌⊎◌, inl, inr, List, [], ◌∷◌, arith, length,
  if_both,
}
use tlsrpt_digest.Store.Types.{StoreError, EmailMeta}
use tlsrpt_digest.Cmd.Session.Logic.{Gives, Gives-any, Gives-bind, Gives-return, Gives-stop}
use tlsrpt_digest.Notify.Kinds.{SystemErrorKind}
use tlsrpt_digest.Cmd.Fetch.{
  MessageMeta, FetchRunner, BootContext, FetchMsgState, fail_with, has_eml,
}
use tlsrpt_digest.Cmd.Fetch.Download.{
  build_fetch_states, sized, lacking, saved_eml, save_downloaded, save_all, after_download,
  download, fetch_download_and_save, build_email_metas, meta_of,
}
use tlsrpt_digest.Cmd.Fetch.Saved.{metas_of}

-- the index entries of messages
abbrev pub email_metas : ℕ → List MessageMeta → List EmailMeta
email_metas v [] = []
email_metas v (m ∷ ms) =
    record { uid = m.uid; uid_validity = v; internal_date = m.date } ∷ email_metas v ms

abbrev Of : MessageMeta → FetchMsgState → Type 0
Of m s = s.meta ≡ m

-- a state of the message with its file
abbrev Has : MessageMeta → FetchMsgState → Type 0
Has m s = (s.meta ≡ m) × (has_eml s ≡ true)

-- the states give the index entries of the messages
abbrev pub Entries : ℕ → List MessageMeta → List FetchMsgState → Type 0
Entries v ms states = build_email_metas states v ≡ email_metas v ms

no-Entries : (v : ℕ) → Entries v [] []
unfolding build_email_metas
no-Entries v = refl

Entries-cons :
    (v : ℕ) (m : MessageMeta) (ms : List MessageMeta) (s : FetchMsgState)
    (states : List FetchMsgState)
    → Has m s
    → Entries v ms states
    → Entries v (m ∷ ms) (s ∷ states)
unfolding build_email_metas
Entries-cons v m ms s states h k =
    let same : meta_of v s ≡ record { uid = m.uid; uid_validity = v; internal_date = m.date } =
      ap (λ (x : MessageMeta). record { uid = x.uid; uid_validity = v; internal_date = x.date })
        h.0 in
    ground (arith, same)

none_lacking :
    (v : ℕ) (states : List FetchMsgState) → lacking states ≡ [] → Entries v (metas_of states) states
none_lacking v [] e = no-Entries v
none_lacking v (s ∷ states) e =
    Entries-cons v s.meta (metas_of states) s states (refl, ground arith)
      (none_lacking v states (ground arith))

module _ (r : FetchRunner) where
  sized-Of : (m : MessageMeta) (v : ℕ) (x : StoreError ⊎ Option ℕ) → Gives (Of m) (sized r m v x)
  sized-Of m v (inl e) = Gives-stop _
  sized-Of m v (inr none) = Gives-return _ refl
  sized-Of m v (inr (some n)) =
      if_both (Gives (Of m)) (n == m.size) (λ _. Gives-return _ refl)
        (λ _. Gives-bind (λ _. Unit) _ _ (Gives-any _) (λ _ _. Gives-return _ refl))

  pub build_fetch_states-metas_of :
      (ms : List MessageMeta) (v : ℕ)
      → Gives (λ states. metas_of states ≡ ms) (build_fetch_states r ms v)
  unfolding build_fetch_states
  build_fetch_states-metas_of [] v = Gives-return [] refl
  build_fetch_states-metas_of (m ∷ ms) v =
      Gives-bind (λ _. Unit) _ _ (Gives-any _)
        (λ x _. Gives-bind (Of m) _ _ (sized-Of m v x) (λ s e.
          Gives-bind (λ states. metas_of states ≡ ms) _ _ (build_fetch_states-metas_of ms v)
            (λ states h. Gives-return (s ∷ states) (ground (arith, e, h)))))

  module _ (boot : BootContext) (v : ℕ) where
    fails : {A : Type 0} (R : A → Type 0) (kind : SystemErrorKind) → Gives R (fail_with r kind)
    fails R kind = Gives-bind (λ _. Unit) _ _ (Gives-any _) (λ _ _. Gives-stop _)

    saved_eml-Has :
        (s : FetchMsgState) (raw : List ℕ) (x : StoreError ⊎ Unit {0})
        → Gives (Has s.meta) (saved_eml s raw x)
    saved_eml-Has s raw (inl e) = Gives-stop _
    saved_eml-Has s raw (inr u) = Gives-return _ (refl, ground arith)

    save_downloaded-Has :
        (s : FetchMsgState) (x : Option (List ℕ))
        → Gives (Has s.meta) (save_downloaded r boot v s x)
    save_downloaded-Has s none = fails (Has s.meta) _
    save_downloaded-Has s (some raw) =
        let store = Gives-bind (λ _. Unit) _ _ (Gives-any _) (λ x _. saved_eml-Has s raw x) in
        if_both (Gives (Has s.meta)) (length raw == s.meta.size) (λ _. store)
          (λ _. Gives-bind (λ _. Unit) _ _ (Gives-any _) (λ _ _. store))

    save_all-Entries :
        (f : ℕ → Option (List ℕ)) (states : List FetchMsgState)
        → Gives (Entries v (metas_of states)) (save_all r boot v f states)
    unfolding save_all
    save_all-Entries f [] = Gives-return _ (no-Entries v)
    save_all-Entries f (s ∷ states) =
        Gives-bind (Has s.meta) _ _
          (if_both (Gives (Has s.meta)) s.eml_existed_before
            (λ e. Gives-return s (refl, ground arith)) (λ _. save_downloaded-Has s (f s.meta.uid)))
          (λ s' e.
            Gives-bind (Entries v (metas_of states)) _ _ (save_all-Entries f states) (λ states' h.
              Gives-return _ (Entries-cons v s.meta (metas_of states) s' states' e h)))

    after_download-Entries :
        (states : List FetchMsgState) (x : Option (ℕ → Option (List ℕ)))
        → Gives (Entries v (metas_of states)) (after_download r boot v states x)
    after_download-Entries states none = fails (Entries v (metas_of states)) _
    after_download-Entries states (some f) = save_all-Entries f states

    download-Entries :
        (states : List FetchMsgState) (xs : List ℕ)
        → lacking states ≡ xs
        → Gives (Entries v (metas_of states)) (download r boot v states xs)
    download-Entries states [] e = Gives-return _ (none_lacking v states e)
    download-Entries states (x ∷ xs) e =
        Gives-bind (λ _. Unit) _ _ (Gives-any _)
          (λ _ _. after_download-Entries states (r.server.download (x ∷ xs)))

    pub fetch_download_and_save-Entries :
        (states : List FetchMsgState)
        → Gives (Entries v (metas_of states)) (fetch_download_and_save r boot v states)
    unfolding fetch_download_and_save
    fetch_download_and_save-Entries states = download-Entries states (lacking states) refl
