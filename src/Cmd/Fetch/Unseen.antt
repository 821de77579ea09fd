-- ===== src/Cmd/Fetch/Unseen.antt =====
-- The messages that cmd/tlsrpt-digest/fetch.go holds as unseen are those that the server gave as such.
use tlsrpt_digest.Base.{
  ◌≡◌, refl, ap, ℕ, ◌==◌, if◌then◌else◌, if_both, Option, none, some, ◌⊎◌, inl, inr, List, [], ◌∷◌,
  arith, length,
}
use tlsrpt_digest.Store.Types.{StoreError}
use tlsrpt_digest.Notify.Kinds.{SystemErrorKind}
use tlsrpt_digest.Cmd.Session.Logic.{Gives, Gives-any, Gives-bind, Gives-return, Gives-stop}
use tlsrpt_digest.Cmd.Fetch.{
  MessageMeta, FetchMetaResult, FetchRunner, BootContext, FetchMsgState, fail_with,
}
use tlsrpt_digest.Cmd.Fetch.Download.{
  build_fetch_states, sized, lacking, saved_eml, save_downloaded, save_all, after_download,
  download, fetch_download_and_save,
}
use tlsrpt_digest.Cmd.Fetch.Command.{collect_unseen_uids}

-- the messages that the server gave as unseen
abbrev pub unseen : List MessageMeta → List ℕ
unseen [] = []
unseen (m ∷ ms) = let rest = unseen ms in if m.seen then rest else m.uid ∷ rest

abbrev pub unseen_in : Option FetchMetaResult → List ℕ
unseen_in none = []
unseen_in (some result) = unseen result.messages

-- the states of messages whose unseen ones are these
abbrev pub Unseen : List ℕ → List FetchMsgState → Type 0
Unseen uids states = collect_unseen_uids states ≡ uids

-- a state of the message
abbrev Of : MessageMeta → FetchMsgState → Type 0
Of m s = s.meta ≡ m

no_messages : Unseen (unseen []) []
unfolding collect_unseen_uids
no_messages = refl

unseen_cons :
    (m : MessageMeta) (ms : List MessageMeta) (s : FetchMsgState) (states : List FetchMsgState)
    → Of m s
    → Unseen (unseen ms) states
    → Unseen (unseen (m ∷ ms)) (s ∷ states)
unfolding collect_unseen_uids
unseen_cons m ms s states e h = ground (arith, ap (λ x. x.seen) e, ap (λ x. x.uid) e)

replaced :
    (s s' : FetchMsgState) (states states' : List FetchMsgState)
    → Of s.meta s'
    → Unseen (collect_unseen_uids states) states'
    → Unseen (collect_unseen_uids (s ∷ states)) (s' ∷ states')
unfolding collect_unseen_uids
replaced s s' states states' e h = ground (arith, ap (λ x. x.seen) e, ap (λ x. x.uid) e)

module _ (r : FetchRunner) where
  sized-Of : (m : MessageMeta) (v : ℕ) (x : StoreError ⊎ Option ℕ) → Gives (Of m) (sized r m v x)
  sized-Of m v (inl e) = Gives-stop _
  sized-Of m v (inr none) = Gives-return _ refl
  sized-Of m v (inr (some n)) =
      if_both (Gives (Of m)) (n == m.size) (λ _. Gives-return _ refl)
        (λ _. Gives-bind (λ _. Unit) _ _ (Gives-any _) (λ _ _. Gives-return _ refl))

  pub build_fetch_states-Unseen :
      (ms : List MessageMeta) (v : ℕ) → Gives (Unseen (unseen ms)) (build_fetch_states r ms v)
  unfolding build_fetch_states
  build_fetch_states-Unseen [] v = Gives-return [] no_messages
  build_fetch_states-Unseen (m ∷ ms) v =
      Gives-bind (λ _. Unit) _ _ (Gives-any _)
        (λ x _. Gives-bind (Of m) _ _ (sized-Of m v x) (λ s e.
          Gives-bind (Unseen (unseen ms)) _ _ (build_fetch_states-Unseen ms v)
            (λ states h. Gives-return _ (unseen_cons m ms s states e h))))

  module _ (boot : BootContext) (current : ℕ) where
    fails : {A : Type 0} (R : A → Type 0) (kind : SystemErrorKind) → Gives R (fail_with r kind)
    fails R kind = Gives-bind (λ _. Unit) _ _ (Gives-any _) (λ _ _. Gives-stop _)

    saved_eml-Of :
        (s : FetchMsgState) (raw : List ℕ) (x : StoreError ⊎ Unit {0})
        → Gives (Of s.meta) (saved_eml s raw x)
    saved_eml-Of s raw (inl e) = Gives-stop _
    saved_eml-Of s raw (inr u) = Gives-return _ refl

    save_downloaded-Of :
        (s : FetchMsgState) (x : Option (List ℕ))
        → Gives (Of s.meta) (save_downloaded r boot current s x)
    save_downloaded-Of s none = fails (Of s.meta) _
    save_downloaded-Of s (some raw) =
        let store = Gives-bind (λ _. Unit) _ _ (Gives-any _) (λ x _. saved_eml-Of s raw x) in
        if_both (Gives (Of s.meta)) (length raw == s.meta.size) (λ _. store)
          (λ _. Gives-bind (λ _. Unit) _ _ (Gives-any _) (λ _ _. store))

    save_all-Unseen :
        (f : ℕ → Option (List ℕ)) (states : List FetchMsgState)
        → Gives (Unseen (collect_unseen_uids states)) (save_all r boot current f states)
    unfolding save_all
    save_all-Unseen f [] = Gives-return _ refl
    save_all-Unseen f (s ∷ states) =
        Gives-bind (Of s.meta) _ _
          (if_both (Gives (Of s.meta)) s.eml_existed_before (λ _. Gives-return s refl)
            (λ _. save_downloaded-Of s (f s.meta.uid)))
          (λ s' e.
            Gives-bind (Unseen (collect_unseen_uids states)) _ _ (save_all-Unseen f states)
              (λ states' h. Gives-return _ (replaced s s' states states' e h)))

    after_download-Unseen :
        (states : List FetchMsgState) (x : Option (ℕ → Option (List ℕ)))
        → Gives (Unseen (collect_unseen_uids states)) (after_download r boot current states x)
    after_download-Unseen states none = fails (Unseen (collect_unseen_uids states)) _
    after_download-Unseen states (some f) = save_all-Unseen f states

    download-Unseen :
        (states : List FetchMsgState) (xs : List ℕ)
        → Gives (Unseen (collect_unseen_uids states)) (download r boot current states xs)
    download-Unseen states [] = Gives-return _ refl
    download-Unseen states (x ∷ xs) =
        Gives-bind (λ _. Unit) _ _ (Gives-any _)
          (λ _ _. after_download-Unseen states (r.server.download (x ∷ xs)))

    pub fetch_download_and_save-Unseen :
        (states : List FetchMsgState)
        → Gives
            (Unseen (collect_unseen_uids states))
            (fetch_download_and_save r boot current states)
    unfolding fetch_download_and_save
    fetch_download_and_save-Unseen states = download-Unseen states (lacking states)
