-- ===== src/Store/Partial/Writes.antt =====
-- What the writes of internal/store that a fetch makes leave on the disk when they are done.
use tlsrpt_digest.Base.{
  ◌≡◌, refl, sym, subst, ◌∙◌, ℕ, Bool, true, ◌&&◌, ◌==◌, Option, none, some, List, [], ◌∷◌, ◌++◌,
  String, arith, Bool-cases, inl, inr,
}
use tlsrpt_digest.Base.Time.{Time, is_zero}
use tlsrpt_digest.Tlsrpt.{Report}
use tlsrpt_digest.Store.Types.{
  EmailMeta, EmailPath, Eml, DataFile, data_file_version, File, parsed, garbage, Sentinel,
  sentinel_format_version, Disk, ReportInput,
}
use tlsrpt_digest.Store.Sentinel.{
  FileStore, load_sentinel, decode_sentinel, load_or_init_sentinel_for_write, save_sentinel,
  save_uid_validity,
}
use tlsrpt_digest.Store.Open.{empty_data_file}
use tlsrpt_digest.Store.Reports.{
  load_data_file, decode_data_file, save_data_file, upsert_reports, save_reports,
}
use tlsrpt_digest.Store.Emails.{
  build_email_path, same_path, files, save_email, merge_metas, save_merged, save_email_metas,
  is_file,
}
use tlsrpt_digest.Store.Emails.Index.{
  is_entry, entry, all_dated, read_eml-append, merge_metas_lem, merge_metas_zero,
}
use tlsrpt_digest.Store.Reports.Upsert.{lookup, last_input, or_else, upsert_reports_lem}
use tlsrpt_digest.Store.Partial.{
  Partial, Partial-pure, Partial-throw, Partial-if, Partial-effect, Partial-look, Partial-bind,
  Partial-unless_read_only,
}

-- a property of the mails that more of them do not take away
pub record Grows (K : Option (List Eml) → Type 0) : Type 0 where
  pub more :
      (es es' : Option (List Eml))
      → ((q : EmailPath) → is_file q (files es) ≡ true → is_file q (files es') ≡ true)
      → K es
      → K es'

has-append :
    (p q : EmailPath) (raw : List ℕ) (es : List Eml)
    → is_file q es ≡ true
    → is_file q (es ++ (record { path = p; raw = raw } ∷ [])) ≡ true
has-append p q raw es h = ground (arith, read_eml-append p q raw es)

same_path_refl : (p : EmailPath) → same_path p p ≡ true
same_path_refl p = ground arith

is_file-append :
    (p : EmailPath) (raw : List ℕ) (es : List Eml)
    → is_file p (es ++ (record { path = p; raw = raw } ∷ [])) ≡ true
is_file-append p raw [] = ground (arith, same_path_refl p)
is_file-append p raw (e ∷ es) = ground (arith, is_file-append p raw es)

module _ {K : Option (List Eml) → Type 0} (g : Grows K) where
  pub save_email-Partial :
      (st : FileStore) (uid v : ℕ) (date : Time) (raw : List ℕ)
      → Partial
          (λ d. K d.emails)
          (save_email st uid v date raw)
          (λ _ d. K d.emails × (is_file (build_email_path uid v date) (files d.emails) ≡ true))
  unfolding save_email
  save_email-Partial st uid v date raw =
      let p = build_email_path uid v date in
      Partial-unless_read_only st (
        Partial-if (is_zero date) (λ _. Partial-throw _)
          (λ _.
            Partial-bind (λ found d. K d.emails × (is_file p (files d.emails) ≡ found)) _ _
              (Partial-look _ (λ d k. (k, refl)))
              (λ found.
                Partial-if found (λ e. Partial-pure tt (λ d k. (k.0, k.1 ∙ e)))
                  (λ _.
                    Partial-bind (λ _ d. K d.emails) _ _
                      (Partial-effect _
                        (λ d k. g.more d.emails (some (files d.emails)) (λ q h. h) k.0))
                      (λ _. Partial-effect _ (λ d k. (
                        g.more d.emails _ (λ q h. has-append p q raw (files d.emails) h) k,
                        is_file-append p raw (files d.emails),
                      )))))))

-- every meta has an entry
abbrev pub all_indexed : List EmailMeta → List EmailMeta → Bool
all_indexed [] es = true
all_indexed (m ∷ ms) es = is_entry m.uid m.uid_validity es && all_indexed ms es

-- the data file has an entry for each of the metas
abbrev pub Indexed : List EmailMeta → Option (File DataFile) → Type 0
Indexed ms f = (df : DataFile) × (f ≡ some (parsed df)) × (all_indexed ms df.emails ≡ true)

-- the last report of the inputs with an id is the one in the list
abbrev pub HasLast : List ReportInput → List Report → Type 0
HasLast inputs rs =
    (id : String) (r : Report) → last_input id inputs ≡ some r → lookup id rs ≡ some r

-- the data file has the metas and the reports
abbrev pub Recorded : List EmailMeta → List ReportInput → Option (File DataFile) → Type 0
Recorded ms inputs f =
    (df : DataFile) × (f ≡ some (parsed df))
    × (all_indexed ms df.emails ≡ true)
    × HasLast inputs df.reports

-- where the first of the entries that were there and of the metas is an entry, all metas have one
merged_indexed :
    (ms all es out : List EmailMeta)
    → ((uid v : ℕ) → is_entry uid v ms ≡ true → is_entry uid v all ≡ true)
    → ((uid v : ℕ) → entry uid v out ≡ or_else (entry uid v es) (entry uid v all))
    → all_indexed ms out ≡ true
merged_indexed [] all es out k h = refl
merged_indexed (m ∷ ms) all es out k h =
    let self = k m.uid m.uid_validity in
    let rest = merged_indexed ms all es out (λ uid v e. k uid v (ground arith)) h in
    ground (arith, self, h m.uid m.uid_validity)

module _ (P : Disk → Type 0) (R : DataFile → Type 0)
    (present : (d : Disk) (df : DataFile) → P d → d.data_file ≡ some (parsed df) → R df)
    (absent : (d : Disk) → P d → d.data_file ≡ none → R empty_data_file) where
  decoded :
      (f : Option (File DataFile))
      → Partial (λ d. P d × (d.data_file ≡ f)) (decode_data_file f) (λ df d. P d × R df)
  decoded none = Partial-pure _ (λ d h. (h.0, absent d h.0 h.1))
  decoded (some garbage) = Partial-throw _
  decoded (some (parsed df)) =
      Partial-if (df.version == data_file_version)
        (λ _. Partial-pure df (λ d h. (h.0, present d df h.0 h.1))) (λ _. Partial-throw _)

  load_data_file-Partial : Partial P load_data_file (λ df d. P d × R df)
  unfolding load_data_file
  load_data_file-Partial =
      Partial-bind (λ f d. P d × (d.data_file ≡ f)) _ _ (Partial-look _ (λ d h. (h, refl))) decoded

-- what a write of the index leaves
abbrev pub AfterIndex : (Option (List Eml) → Type 0) → List EmailMeta → Disk → Type 0
AfterIndex K ms d = K d.emails × Indexed ms d.data_file

merged-Partial :
    (K : Option (List Eml) → Type 0) (ms : List EmailMeta) (df : DataFile)
    (x : Option (List EmailMeta))
    → ((out : List EmailMeta) → x ≡ some out → all_indexed ms out ≡ true)
    → Partial (λ d. K d.emails × Unit {0}) (save_merged df x) (λ _. AfterIndex K ms)
unfolding save_data_file
merged-Partial K ms df none h = Partial-throw _
merged-Partial K ms df (some out) h =
    Partial-effect _ (λ d k. (k.0, (record df { emails = out }, refl, h out refl)))

merge_metas_indexed :
    (ms es out : List EmailMeta) → merge_metas ms es ≡ some out → all_indexed ms out ≡ true
merge_metas_indexed ms es out e = elim (Bool-cases (all_dated ms)) [
  | inl a ↦
      let (out', run, g) = merge_metas_lem ms es a in
      let same : out' ≡ out = some_inj (sym run ∙ e) in
      subst (λ x. all_indexed ms x ≡ true) same
        (merged_indexed ms ms es out' (λ _ _ k. k) g.entries)
  | inr z ↦ absurd (none_some (sym (merge_metas_zero ms es z) ∙ e))
]
  where
    some_inj : {a b : List EmailMeta} → some a ≡ some b → a ≡ b
    some_inj q = ground arith

    none_some : {a : List EmailMeta} → none ≡ some a → ⊥
    none_some q = ground arith

pub save_email_metas-Partial :
    (K : Option (List Eml) → Type 0) (st : FileStore) (ms : List EmailMeta)
    → Partial (λ d. K d.emails) (save_email_metas st ms) (λ _. AfterIndex K ms)
unfolding save_email_metas
save_email_metas-Partial K st ms = Partial-unless_read_only st (
    Partial-bind (λ _ d. K d.emails × Unit {0}) _ _
      (load_data_file-Partial (λ d. K d.emails) (λ _. Unit) (λ _ _ _ _. tt) (λ _ _ _. tt))
      (λ df. merged-Partial K ms df (merge_metas ms df.emails) (merge_metas_indexed ms df.emails)))

stored_last :
    (inputs : List ReportInput) (rs : List Report) → HasLast inputs (upsert_reports inputs rs)
stored_last inputs rs id r e = ground (arith, (upsert_reports_lem inputs rs).0 id)

pub save_reports-Partial :
    (K : Option (List Eml) → Type 0) (st : FileStore) (ms : List EmailMeta)
    (inputs : List ReportInput)
    → Partial
        (AfterIndex K ms)
        (save_reports st inputs)
        (λ _ d. K d.emails × Recorded ms inputs d.data_file)
unfolding save_reports save_data_file
save_reports-Partial K st ms inputs = Partial-unless_read_only st (
    Partial-bind (λ df d. AfterIndex K ms d × (all_indexed ms df.emails ≡ true)) _ _
      (load_data_file-Partial (AfterIndex K ms) (λ df. all_indexed ms df.emails ≡ true)
        (λ d df k e. ground arith) (λ d k e. absurd (ground arith)))
      (λ df. Partial-effect _ (λ d k. (
        k.0.0,
        (
          record df { reports = upsert_reports inputs df.reports },
          refl,
          k.1,
          stored_last inputs df.reports,
        ),
      ))))

-- The sentinel is not among what holds of the mails and the data file.
module _ (X : Option (List Eml) → Option (File DataFile) → Type 0) where
  abbrev Rest : Disk → Type 0
  Rest d = X d.emails d.data_file

  decoded_sentinel : (f : Option (File Sentinel)) → Partial Rest (decode_sentinel f) (λ _. Rest)
  decoded_sentinel none = Partial-pure _ (λ d h. h)
  decoded_sentinel (some garbage) = Partial-throw _
  decoded_sentinel (some (parsed s)) =
      Partial-if (s.format_version == sentinel_format_version) (λ _. Partial-pure _ (λ d h. h))
        (λ _. Partial-throw _)

  load_sentinel-Partial : Partial Rest load_sentinel (λ _. Rest)
  unfolding load_sentinel
  load_sentinel-Partial = Partial-bind (λ _. Rest) _ _ (Partial-look _ (λ d h. h)) decoded_sentinel

  load_or_init-Partial :
      (st : FileStore) → Partial Rest (load_or_init_sentinel_for_write st) (λ _. Rest)
  unfolding load_or_init_sentinel_for_write
  load_or_init-Partial st =
      Partial-bind (λ _. Rest) _ _ load_sentinel-Partial (λ s. Partial-pure _ (λ d h. h))

  pub save_uid_validity-Partial :
      (st : FileStore) (v : ℕ) → Partial Rest (save_uid_validity st v) (λ _. Rest)
  unfolding save_uid_validity save_sentinel
  save_uid_validity-Partial st v =
      Partial-unless_read_only st
        (Partial-bind (λ _. Rest) _ _ (load_or_init-Partial st) (λ s. Partial-effect _ (λ d h. h)))
