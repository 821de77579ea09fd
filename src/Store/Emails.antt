-- ===== src/Store/Emails.antt =====
-- internal/store/emails.go: the saved mails below emails/ and their index in tlsrpt.json. The model
-- keeps regular files below emails/ and no empty directories, so cleanupEmptyDirs, whose failures
-- are only logged, changes nothing of it.
pub mod Index
pub mod Deletion
pub mod Crash
pub mod Load
use tlsrpt_digest.Base.{
  ℕ, suc, ◌==◌, Bool, true, false, not, ◌&&◌, Option, none, some, List, [], ◌∷◌, ◌++◌, select,
  count, if◌then◌else◌,
}
use tlsrpt_digest.Base.Time.{Time, is_zero, before, year_month}
use tlsrpt_digest.Store.Types.{EmailMeta, EmailPath, Eml, DataFile, zero_internal_date}
use tlsrpt_digest.Store.Io.{
  M, World, Outcome, done, failed, crashed, pure, throw, effect, look, ◌>>=◌, ◌>>◌,
}
use tlsrpt_digest.Store.Sentinel.{FileStore, unless_read_only}
use tlsrpt_digest.Store.Reports.{load_data_file, save_data_file}

abbrev pub build_email_path : ℕ → ℕ → Time → EmailPath
build_email_path uid uid_validity date = record {
  uid_validity = uid_validity;
  month = year_month date;
  uid = uid;
}

abbrev pub path_of : EmailMeta → EmailPath
path_of e = build_email_path e.uid e.uid_validity e.internal_date

abbrev pub same_path : EmailPath → EmailPath → Bool
same_path p q = p.uid_validity == q.uid_validity && (p.month == q.month && p.uid == q.uid)

-- the bytes of the file at a path
abbrev pub read_eml : EmailPath → List Eml → Option (List ℕ)
read_eml p [] = none
read_eml p (e ∷ es) = if same_path e.path p then some e.raw else read_eml p es

abbrev pub files : Option (List Eml) → List Eml
files none = []
files (some es) = es

abbrev pub is_file : EmailPath → List Eml → Bool
is_file p es = elim (read_eml p es) [ none ↦ false | some _ ↦ true ]

unfoldable pub save_email : FileStore → ℕ → ℕ → Time → List ℕ → M Unit
unfolding unless_read_only pure throw ◌>>=◌
save_email st uid uid_validity date raw =
    let path = build_email_path uid uid_validity date in
    unless_read_only st (
      if is_zero date then throw zero_internal_date else (do
        found ← look (λ d. is_file path (files d.emails))
        if found then pure tt else (do
          effect (λ d. record d { emails = some (files d.emails) })
          effect (λ d. record d {
            emails = some (files d.emails ++ (record { path = path; raw = raw } ∷ []));
          }))))

-- the set of the keys {uid, uidvalidity}
abbrev pub Keys : Type 0
Keys = ℕ → ℕ → Bool

abbrev pub add_key : EmailMeta → Keys → Keys
add_key e keys uid v = if e.uid == uid && e.uid_validity == v then true else keys uid v

abbrev pub keys_of : List EmailMeta → Keys → Keys
keys_of [] keys = keys
keys_of (e ∷ es) keys = keys_of es (add_key e keys)

-- the loop of SaveEmailMetas; `none` is the return on a zero date
abbrev pub append_new : List EmailMeta → Keys → List EmailMeta → Option (List EmailMeta)
append_new [] keys out = some out
append_new (m ∷ ms) keys out = elim (is_zero m.internal_date) [
  | true ↦ none
  | false ↦ elim (keys m.uid m.uid_validity) [
    | true ↦ append_new ms keys out
    | false ↦ append_new ms (add_key m keys) (out ++ (m ∷ []))
  ]
]

unfoldable pub merge_metas : List EmailMeta → List EmailMeta → Option (List EmailMeta)
merge_metas metas index = append_new metas (keys_of index (λ _ _. false)) index

abbrev pub save_merged : DataFile → Option (List EmailMeta) → M Unit
save_merged df none = throw zero_internal_date
save_merged df (some es) = save_data_file (record df { emails = es })

unfoldable pub save_email_metas : FileStore → List EmailMeta → M Unit
unfolding unless_read_only load_data_file save_data_file merge_metas throw ◌>>=◌
save_email_metas st metas =
    unless_read_only st (do df ← load_data_file; save_merged df (merge_metas metas df.emails))

-- what DeleteEmailsBefore returns: the count, the entries whose file could not be removed, and
-- whether the index could not be written; the error is their join
pub record EmailDeletion : Type 0 where
  pub deleted : ℕ
  pub failures : List EmailMeta
  pub save_failed : Bool

-- a call whose error is kept as a value
unfoldable pub attempt : M Unit → M Bool
attempt m w =
    let (r, w') = m w in
    elim r [ done _ ↦ (done true, w') | failed _ ↦ (done false, w') | crashed ↦ (crashed, w') ]

abbrev pub without : EmailPath → List Eml → List Eml
without p es = select (λ e. not (same_path e.path p)) es

abbrev pub removed_from : EmailPath → Option (List Eml) → Option (List Eml)
removed_from p none = none
removed_from p (some es) = some (without p es)

-- os.Remove of a mail, where an absent file is no error
unfoldable pub remove_eml : EmailPath → M Unit
remove_eml p = effect (λ d. record d { emails = removed_from p d.emails })

abbrev pub dated_before : Time → EmailMeta → Bool
dated_before cutoff e = before e.internal_date cutoff

-- the state of the loop of DeleteEmailsBefore
pub record Sweep : Type 0 where
  pub deleted : ℕ
  pub failures : List EmailMeta
  pub surviving : List EmailMeta

abbrev pub keep_entry : EmailMeta → Sweep → Sweep
keep_entry e s = record s { surviving = s.surviving ++ (e ∷ []) }

abbrev pub after_remove : EmailMeta → Sweep → Bool → Sweep
after_remove e s true = record s { deleted = suc s.deleted }
after_remove e s false = record s {
  failures = s.failures ++ (e ∷ []);
  surviving = s.surviving ++ (e ∷ []);
}

unfoldable pub sweep_entry : Time → EmailMeta → Sweep → M Sweep
unfolding attempt remove_eml pure ◌>>=◌
sweep_entry cutoff e s =
    if dated_before cutoff e
    then (do removed ← attempt (remove_eml (path_of e)); pure (after_remove e s removed))
    else pure (keep_entry e s)

unfoldable pub sweep : Time → List EmailMeta → Sweep → M Sweep
unfolding sweep_entry pure ◌>>=◌
sweep cutoff [] s = pure s
sweep cutoff (e ∷ es) s = do s' ← sweep_entry cutoff e s; sweep cutoff es s'

abbrev pub deletion : Sweep → Bool → EmailDeletion
deletion s saved = record { deleted = s.deleted; failures = s.failures; save_failed = not saved }

abbrev pub no_deletion : EmailDeletion
no_deletion = record { deleted = 0; failures = []; save_failed = false }

unfoldable pub delete_emails_before : FileStore → Time → M EmailDeletion
unfolding unless_read_only load_data_file save_data_file sweep attempt pure ◌>>=◌
delete_emails_before st cutoff = unless_read_only st (
    if is_zero cutoff then pure no_deletion else (do
      df ← load_data_file
      s ← sweep cutoff df.emails (record { deleted = 0; failures = []; surviving = [] })
      if s.deleted == 0 then pure (deletion s true) else (do
        saved ← attempt (save_data_file (record df { emails = s.surviving }))
        pure (deletion s saved))))

-- the loop of CountEmailsBefore
abbrev pub count_dated : Time → List EmailMeta → ℕ → ℕ
count_dated cutoff [] n = n
count_dated cutoff (e ∷ es) n = count_dated cutoff es (if dated_before cutoff e then suc n else n)

unfoldable pub count_emails_before : Time → M ℕ
unfolding load_data_file pure ◌>>=◌
count_emails_before cutoff =
    if is_zero cutoff
    then pure 0
    else (do df ← load_data_file; pure (count_dated cutoff df.emails 0))
