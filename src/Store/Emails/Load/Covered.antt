-- ===== src/Store/Emails/Load/Covered.antt =====
-- LoadEmails of internal/store/emails.go passes over no file: each is loaded, or among the failures.
use tlsrpt_digest.Base.{
  ◌≡◌, refl, ap, sym, subst, ◌∙◌, ℕ, ltb, ◌^◌, Bool, true, false, ◌&&◌, ◌||◌, Option, none, some,
  ◌⊎◌, inl, inr, List, [], ◌∷◌, arith,
}
use tlsrpt_digest.Base.Time.{Time}
use tlsrpt_digest.Mailparse.{Part}
use tlsrpt_digest.Store.Types.{EmailPath, Eml, Disk, StoreError}
use tlsrpt_digest.Store.Untouched.{Untouched-look_some}
use tlsrpt_digest.Store.Partial.{
  Partial, Partial-pure, Partial-if, Partial-look, Partial-bind, Partial-try_call, Partial-given,
}
use tlsrpt_digest.Store.Reports.Reads.{load_data_file-Untouched}
use tlsrpt_digest.Store.Reports.{load_data_file}
use tlsrpt_digest.Store.Emails.{same_path}
use tlsrpt_digest.Store.Emails.Load.{
  LoadedEmail, LoadEmailFailed, Loaded, Dates, dates_in, date_of, load_indexed_email_dates,
  message_of, data_of, read_file, load_dated, load_email, add_loaded, nothing_loaded, load_each,
  paths_of, is_there, load_emails,
}

abbrev pub is_loaded : EmailPath → List LoadedEmail → Bool
is_loaded p [] = false
is_loaded p (e ∷ es) = same_path e.path p || is_loaded p es

abbrev pub is_failed : EmailPath → List LoadEmailFailed → Bool
is_failed p [] = false
is_failed p (f ∷ fs) = same_path f.path p || is_failed p fs

-- each of the paths is loaded or has failed
abbrev pub covers : List EmailPath → Loaded → Bool
covers [] l = true
covers (p ∷ ps) l = (is_loaded p l.emails || is_failed p l.failures) && covers ps l

abbrev About : EmailPath → LoadEmailFailed ⊎ LoadedEmail → Type 0
About p (inl f) = same_path f.path p ≡ true
About p (inr e) = same_path e.path p ≡ true

same_path_refl : (p : EmailPath) → same_path p p ≡ true
same_path_refl p = ground arith

covers-add_loaded :
    (ps : List EmailPath) (x : LoadEmailFailed ⊎ LoadedEmail) (l : Loaded)
    → covers ps l ≡ true
    → covers ps (add_loaded x l) ≡ true
covers-add_loaded [] x l h = refl
covers-add_loaded (p ∷ ps) (inl f) l h = ground (arith, covers-add_loaded ps (inl f) l)
covers-add_loaded (p ∷ ps) (inr e) l h = ground (arith, covers-add_loaded ps (inr e) l)

covers_cons :
    (p : EmailPath) (ps : List EmailPath) (x : LoadEmailFailed ⊎ LoadedEmail) (l : Loaded)
    → About p x
    → covers ps l ≡ true
    → covers (p ∷ ps) (add_loaded x l) ≡ true
covers_cons p ps (inl f) l e h = ground (arith, covers-add_loaded ps (inl f) l h)
covers_cons p ps (inr m) l e h = ground (arith, covers-add_loaded ps (inr m) l h)

message_of-About : (p : EmailPath) (t : Time) (m : Option Part) → About p (message_of p t m)
message_of-About p t none = same_path_refl p
message_of-About p t (some m) = same_path_refl p

data_of-About :
    (read : List ℕ → Option Part) (p : EmailPath) (t : Time) (x : StoreError ⊎ List ℕ)
    → About p (data_of read p t x)
data_of-About read p t (inl e) = same_path_refl p
data_of-About read p t (inr bytes) = message_of-About p t (read bytes)

module _ (P : Disk → Type 0) (read : List ℕ → Option Part) where
  load_dated-Partial :
      (p : EmailPath) (t : Option Time) → Partial P (load_dated read p t) (λ x d. P d × About p x)
  load_dated-Partial p none = Partial-pure _ (λ d h. (h, same_path_refl p))
  load_dated-Partial p (some t) =
      Partial-bind (λ _. P) _ _ (Partial-try_call P (read_file p) (Untouched-look_some _))
        (λ x. Partial-pure _ (λ d h. (h, data_of-About read p t x)))

  module _ (dates : Dates) where
    load_email-Partial :
        (p : EmailPath) → Partial P (load_email read dates p) (λ x d. P d × About p x)
    unfolding load_email
    load_email-Partial p =
        Partial-if (ltb p.uid_validity (2 ^ 32) && ltb p.uid (2 ^ 32))
          (λ _. load_dated-Partial p (date_of dates p))
          (λ _. Partial-pure _ (λ d h. (h, same_path_refl p)))

load_each-Partial :
    (read : List ℕ → Option Part) (dates : Dates) (ps : List EmailPath) (P : Disk → Type 0)
    → Partial P (load_each read dates ps) (λ l d. P d × (covers ps l ≡ true))
unfolding load_each
load_each-Partial read dates [] P = Partial-pure _ (λ d h. (h, refl))
load_each-Partial read dates (p ∷ ps) P =
    Partial-bind (λ x d. P d × About p x) _ _ (load_email-Partial P read dates p)
      (λ x.
        Partial-bind (λ l d. (P d × About p x) × (covers ps l ≡ true)) _ _
          (load_each-Partial read dates ps (λ d. P d × About p x))
          (λ l. Partial-pure _ (λ d h. (h.0.0, covers_cons p ps x l h.0.1 h.1))))

-- the paths below emails/ that a walk visits
abbrev pub walked : (List EmailPath → List EmailPath) → Option (List Eml) → List EmailPath
walked walk none = []
walked walk (some es) = walk (paths_of (some es))

walked-there :
    (walk : List EmailPath → List EmailPath) (es : Option (List Eml))
    → is_there es ≡ true
    → walk (paths_of es) ≡ walked walk es
walked-there walk none e = absurd (ground arith)
walked-there walk (some es) e = refl

walked-absent :
    (walk : List EmailPath → List EmailPath) (es : Option (List Eml))
    → is_there es ≡ false
    → [] ≡ walked walk es
walked-absent walk none e = refl
walked-absent walk (some es) e = absurd (ground arith)

module _ (read : List ℕ → Option Part) (walk : List EmailPath → List EmailPath)
    (es : Option (List Eml)) where
  abbrev Same : Disk → Type 0
  Same d = d.emails ≡ es

  dates-Partial : (P : Disk → Type 0) → Partial P load_indexed_email_dates (λ _. P)
  unfolding load_indexed_email_dates
  dates-Partial P =
      Partial-bind (λ _. P) _ _ (Partial-try_call P load_data_file load_data_file-Untouched)
        (λ df. Partial-pure (dates_in df) (λ d h. h))

  abbrev Covers : Loaded → Disk → Type 0
  Covers l d = Same d × (covers (walked walk es) l ≡ true)

  covered :
      (dates : Dates) (ps : List EmailPath)
      → ps ≡ walked walk es
      → Partial Same (load_each read dates ps) Covers
  covered dates ps k =
      subst (λ qs. Partial Same (load_each read dates ps) (λ l d. Same d × (covers qs l ≡ true))) k
        (load_each-Partial read dates ps Same)

  absent : is_there es ≡ false → covers (walked walk es) nothing_loaded ≡ true
  absent e = subst (λ qs. covers qs nothing_loaded ≡ true) (walked-absent walk es e) refl

  there : is_there es ≡ true → (ps : List EmailPath) → ps ≡ walk (paths_of es) → ps ≡ walked walk es
  there e ps k = k ∙ walked-there walk es e

  pub load_emails-Partial : Partial Same (load_emails read walk) Covers
  unfolding load_emails
  load_emails-Partial =
      Partial-bind (λ found d. Same d × (is_there es ≡ found)) _ _
        (Partial-look _ (λ d h. (h, ap is_there (sym h))))
        (λ found. Partial-given (λ f.
          Partial-if found
            (λ e.
              Partial-bind (λ _. Same) _ _ (dates-Partial Same)
                (λ dates.
                  Partial-bind (λ ps d. Same d × (ps ≡ walk (paths_of es))) _ _
                    (Partial-look _ (λ d h. (h, ap (λ x. walk (paths_of x)) h)))
                    (λ ps. Partial-given (λ k. covered dates ps (there (f ∙ e) ps k)))))
            (λ e. Partial-pure nothing_loaded (λ d h. (h, absent (f ∙ e))))))
