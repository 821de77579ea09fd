-- ===== src/Store/Emails/Load.antt =====
-- internal/store/emails.go: LoadEmails. mail.ReadMessage and the order of filepath.WalkDir are parameters;
-- the walk's reads of directories are one call. The reason in an ErrLoadEmailFailed is left out.
pub mod Covered
use tlsrpt_digest.Base.{
  ℕ, ◌+◌, ◌-◌, ◌*◌, ◌/◌, ◌%◌, ◌^◌, ltb, leb, ◌==◌, Bool, true, false, ◌&&◌, Option, none, some, ◌⊎◌,
  inl, inr, List, [], ◌∷◌, map, if◌then◌else◌,
}
use tlsrpt_digest.Base.Time.{Time, zero_time, day}
use tlsrpt_digest.Mailparse.{Part}
use tlsrpt_digest.Store.Types.{EmailMeta, EmailPath, Eml, DataFile, StoreError}
use tlsrpt_digest.Store.Io.{M, pure, look, look_some, try_call, ◌>>=◌}
use tlsrpt_digest.Store.Reports.{load_data_file}
use tlsrpt_digest.Store.Emails.{read_eml, files}

pub record LoadedEmail : Type 0 where
  pub message : Part
  pub uid : ℕ
  pub uid_validity : ℕ
  pub internal_date : Time
  pub path : EmailPath

-- `ErrLoadEmailFailed`
pub record LoadEmailFailed : Type 0 where
  pub path : EmailPath
  pub uid : ℕ
  pub uid_validity : ℕ

-- what LoadEmails gives where all its errors are of single files
pub record Loaded : Type 0 where
  pub emails : List LoadedEmail
  pub failures : List LoadEmailFailed

-- the map `indexedDates`
abbrev pub Dates : Type 0
Dates = ℕ → ℕ → Option Time

abbrev later : Option Time → Option Time → Option Time
later none t = t
later (some u) t = some u

abbrev pub dates_of : List EmailMeta → Dates
dates_of [] uid v = none
dates_of (e ∷ es) uid v =
    later (dates_of es uid v)
      (if e.uid == uid && e.uid_validity == v then some e.internal_date else none)

abbrev pub dates_in : StoreError ⊎ DataFile → Dates
dates_in (inl e) uid v = none
dates_in (inr df) uid v = dates_of df.emails uid v

unfoldable pub load_indexed_email_dates : M Dates
unfolding load_data_file try_call pure ◌>>=◌
load_indexed_email_dates = do df ← try_call load_data_file; pure (dates_in df)

-- `time.Parse("200601", …)` of six digits: the first instant of the month, counted in years that
-- begin in March and lie 400 years, which are 146097 days, later
unfoldable pub internal_date_from_email_path : EmailPath → Option Time
internal_date_from_email_path p =
    let month = p.month % 100 in
    let year = if leb month 2 then p.month / 100 + 399 else p.month / 100 + 400 in
    let days =
      365 * year + year / 4 - year / 100 + year / 400 + (153 * ((month + 9) % 12) + 2) / 5 in
    if ltb p.month 1000000 && (leb 1 month && leb month 12)
    then some (zero_time + days * day - (146097 + 306) * day)
    else none

abbrev pub date_of : Dates → EmailPath → Option Time
date_of dates p = elim (dates p.uid p.uid_validity) [
  | some t ↦ some t
  | none ↦ internal_date_from_email_path p
]

abbrev pub failure : EmailPath → ℕ → ℕ → LoadEmailFailed ⊎ LoadedEmail
failure p uid v = inl (record { path = p; uid = uid; uid_validity = v })

abbrev pub message_of : EmailPath → Time → Option Part → LoadEmailFailed ⊎ LoadedEmail
message_of p t none = failure p p.uid p.uid_validity
message_of p t (some message) = inr (record {
  message = message;
  uid = p.uid;
  uid_validity = p.uid_validity;
  internal_date = t;
  path = p;
})

abbrev pub data_of :
    (List ℕ → Option Part) → EmailPath → Time → StoreError ⊎ List ℕ → LoadEmailFailed ⊎ LoadedEmail
data_of read p t (inl e) = failure p p.uid p.uid_validity
data_of read p t (inr data_bytes) = message_of p t (read data_bytes)

abbrev pub read_file : EmailPath → M (List ℕ)
read_file p = look_some (λ d. read_eml p (files d.emails))

abbrev pub load_dated :
    (List ℕ → Option Part) → EmailPath → Option Time → M (LoadEmailFailed ⊎ LoadedEmail)
load_dated read p none = pure (failure p p.uid p.uid_validity)
load_dated read p (some t) = do x ← try_call (read_file p); pure (data_of read p t x)

-- the walk's function, for a file; the numbers in its path are those of strconv.ParseUint
unfoldable pub load_email :
    (List ℕ → Option Part) → Dates → EmailPath → M (LoadEmailFailed ⊎ LoadedEmail)
unfolding internal_date_from_email_path try_call pure ◌>>=◌
load_email read dates p =
    if ltb p.uid_validity (2 ^ 32) && ltb p.uid (2 ^ 32)
    then load_dated read p (date_of dates p)
    else pure (failure p 0 0)

abbrev pub nothing_loaded : Loaded
nothing_loaded = record { emails = []; failures = [] }

abbrev pub add_loaded : LoadEmailFailed ⊎ LoadedEmail → Loaded → Loaded
add_loaded (inl f) l = record l { failures = f ∷ l.failures }
add_loaded (inr e) l = record l { emails = e ∷ l.emails }

unfoldable pub load_each : (List ℕ → Option Part) → Dates → List EmailPath → M Loaded
unfolding load_email pure ◌>>=◌
load_each read dates [] = pure nothing_loaded
load_each read dates (p ∷ ps) = do
  x ← load_email read dates p
  rest ← load_each read dates ps
  pure (add_loaded x rest)

abbrev pub is_there : Option (List Eml) → Bool
is_there none = false
is_there (some es) = true

-- `validateEmailsDir`
abbrev pub validate_emails_dir : M Bool
validate_emails_dir = look (λ d. is_there d.emails)

abbrev pub paths_of : Option (List Eml) → List EmailPath
paths_of es = map (λ e. e.path) (files es)

unfoldable pub load_emails : (List ℕ → Option Part) → (List EmailPath → List EmailPath) → M Loaded
unfolding load_indexed_email_dates load_each pure ◌>>=◌
load_emails read walk = do
  found ← validate_emails_dir
  if found
      then (do
        dates ← load_indexed_email_dates
        paths ← look (λ d. walk (paths_of d.emails))
        load_each read dates paths)
      else pure nothing_loaded
