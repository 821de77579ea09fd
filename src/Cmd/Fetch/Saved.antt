-- ===== src/Cmd/Fetch/Saved.antt =====
-- What a fetch of cmd/tlsrpt-digest/fetch.go that ends with exit code 0 has saved.
use tlsrpt_digest.Base.{
  ◌≡◌, refl, ℕ, Bool, true, ◌==◌, ◌&&◌, Option, none, some, ◌⊎◌, inl, inr, List, [], ◌∷◌, arith,
  length, Bool-cases,
}
use tlsrpt_digest.Store.Types.{StoreError, EmailPath, Eml}
use tlsrpt_digest.Store.Emails.{build_email_path, is_file, files}
use tlsrpt_digest.Store.Partial.Writes.{Grows, save_email-Partial}
use tlsrpt_digest.Cmd.Session.{Session}
use tlsrpt_digest.Cmd.Session.Logic.{
  Hoare, Hoare-return, Hoare-stop, Hoare-if, Hoare-emit, Hoare-bind,
}
use tlsrpt_digest.Cmd.Fetch.{MessageMeta, FetchRunner, BootContext, FetchMsgState}
use tlsrpt_digest.Cmd.Fetch.Download.{
  lacking, saved_eml, store_eml, save_downloaded, save_all, after_download, download,
  fetch_download_and_save,
}
use tlsrpt_digest.Cmd.Session.Success.{Whatever, Succeeds, call-Hoare, Hoare-weaken}
use tlsrpt_digest.Cmd.Fetch.Present.{fails-Hoare, is_saved, all_saved, AllRight, Mails, warns-Hoare}

both_true : {a b : Bool} → a ≡ true → b ≡ true → (a && b) ≡ true
both_true e f = ground arith

-- a message that is saved stays so
pub saved-Grows : (v : ℕ) (m : MessageMeta) → Grows (λ es. is_saved v m es ≡ true)
saved-Grows v m = record { more = λ es es' k h. k (build_email_path m.uid v m.date) h }

AllRight-more :
    (v : ℕ) (states : List FetchMsgState) (es es' : Option (List Eml))
    → ((q : EmailPath) → is_file q (files es) ≡ true → is_file q (files es') ≡ true)
    → AllRight v states es
    → AllRight v states es'
AllRight-more v [] es es' k h = tt
AllRight-more v (s ∷ states) es es' k h = (
  λ e. k (build_email_path s.meta.uid v s.meta.date) (h.0 e),
  AllRight-more v states es es' k h.1,
)

both-Grows :
    {K : Option (List Eml) → Type 0}
    → Grows K
    → (v : ℕ) (states : List FetchMsgState) → Grows (λ es. K es × AllRight v states es)
both-Grows g v states = record {
  more = λ es es' k h. (g.more es es' k h.0, AllRight-more v states es es' k h.1);
}

and-Grows :
    {K : Option (List Eml) → Type 0}
    → Grows K
    → (v : ℕ) (m : MessageMeta) → Grows (λ es. K es × (is_saved v m es ≡ true))
and-Grows g v m = record {
  more = λ es es' k h. (g.more es es' k h.0, (saved-Grows v m).more es es' k h.1);
}

abbrev pub metas_of : List FetchMsgState → List MessageMeta
metas_of [] = []
metas_of (s ∷ states) = s.meta ∷ metas_of states

module _ (r : FetchRunner) (boot : BootContext) (v : ℕ) where
  module _ {K : Option (List Eml) → Type 0} (g : Grows K) (s : FetchMsgState) where
    abbrev SavedOne : Session → Type 0
    SavedOne x = K x.world.disk.emails × (is_saved v s.meta x.world.disk.emails ≡ true)

    saved_eml-Hoare :
        (raw : List ℕ) (x : StoreError ⊎ Unit {0})
        → Hoare
            (Succeeds (λ d. K d.emails) (λ _ d. K d.emails × (is_saved v s.meta d.emails ≡ true)) x)
            (saved_eml s raw x)
            (λ _. SavedOne)
            Whatever
    saved_eml-Hoare raw (inl e) = Hoare-stop _ (λ _ _. tt)
    saved_eml-Hoare raw (inr u) = Hoare-return _ (λ _ h. h)

    store_eml-Hoare :
        (raw : List ℕ) → Hoare (Mails K) (store_eml boot v s raw) (λ _. SavedOne) Whatever
    store_eml-Hoare raw =
        Hoare-bind
          (Succeeds (λ d. K d.emails) (λ _ d. K d.emails × (is_saved v s.meta d.emails ≡ true))) _ _
          (call-Hoare _ _ _ (save_email-Partial g boot.store s.meta.uid v s.meta.date raw))
          (saved_eml-Hoare raw)

    save_downloaded-Hoare :
        (x : Option (List ℕ))
        → Hoare (Mails K) (save_downloaded r boot v s x) (λ _. SavedOne) Whatever
    save_downloaded-Hoare none = fails-Hoare r _
    save_downloaded-Hoare (some raw) =
        Hoare-if (length raw == s.meta.size) (λ _. store_eml-Hoare raw)
          (λ _. Hoare-bind (λ _. Mails K) _ _ (warns-Hoare K _ _ _ _) (λ _. store_eml-Hoare raw))

  save_all-Saved :
      (f : ℕ → Option (List ℕ)) (states : List FetchMsgState) (K : Option (List Eml) → Type 0)
      → Grows K
      → Hoare
          (Mails (λ es. K es × AllRight v states es))
          (save_all r boot v f states)
          (λ _ s.
            K s.world.disk.emails × (all_saved v (metas_of states) s.world.disk.emails ≡ true))
          Whatever
  unfolding save_all
  save_all-Saved f [] K g = Hoare-return [] (λ s h. (h.0, refl))
  save_all-Saved f (s ∷ states) K g =
      Hoare-bind
        (λ _ x.
          (K x.world.disk.emails × AllRight v states x.world.disk.emails)
          × (is_saved v s.meta x.world.disk.emails ≡ true))
        _ _
        (Hoare-if s.eml_existed_before (λ e. Hoare-return s (λ x h. ((h.0, h.1.1), h.1.0 e)))
          (λ _.
            Hoare-weaken (λ x h. (h.0, h.1.1))
              (save_downloaded-Hoare (both-Grows g v states) s (f s.meta.uid))))
        (λ s'.
          Hoare-bind
            (λ _ x.
              (K x.world.disk.emails × (is_saved v s.meta x.world.disk.emails ≡ true))
              × (all_saved v (metas_of states) x.world.disk.emails ≡ true))
            _ _
            (Hoare-weaken (λ x h. ((h.0.0, h.1), h.0.1))
              (save_all-Saved f states (λ es. K es × (is_saved v s.meta es ≡ true))
                (and-Grows g v s.meta)))
            (λ states'. Hoare-return (s' ∷ states') (λ x h. (h.0.0, both_true h.0.1 h.1))))

  nothing_lacking :
      (states : List FetchMsgState) (es : Option (List Eml))
      → lacking states ≡ []
      → AllRight v states es
      → all_saved v (metas_of states) es ≡ true
  nothing_lacking [] es e h = refl
  nothing_lacking (s ∷ states) es e h = elim (Bool-cases s.eml_existed_before) [
    | inl k ↦ both_true (h.0 k) (nothing_lacking states es (ground arith) h.1)
    | inr k ↦ absurd (ground arith)
  ]

  module _ {K : Option (List Eml) → Type 0} (g : Grows K) (states : List FetchMsgState) where
    abbrev Saves : List FetchMsgState → Session → Type 0
    Saves found x =
        K x.world.disk.emails × (all_saved v (metas_of states) x.world.disk.emails ≡ true)

    after_download-Saved :
        (x : Option (ℕ → Option (List ℕ)))
        → Hoare
            (Mails (λ es. K es × AllRight v states es))
            (after_download r boot v states x)
            Saves
            Whatever
    after_download-Saved none = fails-Hoare r _
    after_download-Saved (some f) = save_all-Saved f states K g

    download-Saved :
        (xs : List ℕ)
        → lacking states ≡ xs
        → Hoare
            (Mails (λ es. K es × AllRight v states es))
            (download r boot v states xs)
            Saves
            Whatever
    download-Saved [] e =
        Hoare-return states (λ x h. (h.0, nothing_lacking states x.world.disk.emails e h.1))
    download-Saved (uid ∷ uids) e =
        Hoare-bind (λ _. Mails (λ es. K es × AllRight v states es)) _ _
          (Hoare-emit {Q = λ _. Mails (λ es. K es × AllRight v states es)} _ (λ x h. h))
          (λ _. after_download-Saved (r.server.download (uid ∷ uids)))

    pub fetch_download_and_save-Saved :
        Hoare
          (Mails (λ es. K es × AllRight v states es))
          (fetch_download_and_save r boot v states)
          Saves
          Whatever
    unfolding fetch_download_and_save
    fetch_download_and_save-Saved = download-Saved (lacking states) refl
