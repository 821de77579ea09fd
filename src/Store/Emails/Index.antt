-- ===== src/Store/Emails/Index.antt =====
-- SaveEmail and SaveEmailMetas of internal/store/emails.go: the first save of a key stays.
use tlsrpt_digest.Base.{
  ◌≡◌, refl, sym, subst, ℕ, Option-cases, Bool-cases, inl, inr, not, ◌||◌, ◌==◌, Bool, true, false,
  ◌&&◌, Option, none, some, List, [], ◌∷◌, ◌++◌, if◌then◌else◌, arith,
}
use tlsrpt_digest.Base.Time.{Time, is_zero}
use tlsrpt_digest.Store.Types.{
  EmailMeta, EmailPath, Eml, Disk, DataFile, parsed, zero_internal_date,
}
use tlsrpt_digest.Store.Io.{done, failed, pure, throw, syscall, ◌>>=◌}
use tlsrpt_digest.Store.Sentinel.{FileStore, is_read_only, unless_read_only}
use tlsrpt_digest.Store.Reports.{save_data_file}
use tlsrpt_digest.Store.Reports.Files.{Holds, calm, load_data_file_lem}
use tlsrpt_digest.Store.Reports.Upsert.{or_else}
use tlsrpt_digest.Store.Emails.{
  build_email_path, same_path, read_eml, files, save_email, Keys, add_key, keys_of, append_new,
  merge_metas, save_email_metas,
}

same_path_iff : (p q : EmailPath) → same_path p q ≡ true → p ≡ q
same_path_iff p q h = ground arith

pub read_eml-append :
    (p q : EmailPath) (raw : List ℕ) (es : List Eml)
    → read_eml q (es ++ (record { path = p; raw = raw } ∷ []))
      ≡ or_else (read_eml q es) (if same_path p q then some raw else none)
read_eml-append p q raw [] = refl
read_eml-append p q raw (e ∷ es) = ground (arith, read_eml-append p q raw es)

-- the files after a save of `raw` at a path
abbrev Saved : EmailPath → List ℕ → Disk → Disk → Type 0
Saved p raw d d' =
    (q : EmailPath)
    → read_eml q (files d'.emails)
      ≡ or_else (read_eml q (files d.emails)) (if same_path p q then some raw else none)

saved_before :
    (p q : EmailPath) (raw : List ℕ) (es : List Eml) (b : List ℕ)
    → read_eml p es ≡ some b
    → read_eml q es ≡ or_else (read_eml q es) (if same_path p q then some raw else none)
saved_before p q raw es b h = elim (Bool-cases (same_path p q)) [
  | inl e ↦
      let k : read_eml q es ≡ some b =
        subst (λ x. read_eml x es ≡ some b) (same_path_iff p q e) h in
      ground arith
  | inr e ↦ elim (Option-cases (read_eml q es)) [ inl n ↦ ground arith | inr (x, n) ↦ ground arith ]
]

save_email_lem :
    (st : FileStore) (d : Disk) (uid uid_validity : ℕ) (date : Time) (raw : List ℕ)
    → is_read_only st.mode ≡ false
    → is_zero date ≡ false
    → (d' : Disk) × (save_email st uid uid_validity date raw (calm d) ≡ (done tt, calm d'))
      × Saved (build_email_path uid uid_validity date) raw d d'
unfolding save_email unless_read_only syscall pure throw ◌>>=◌
save_email_lem st d uid uid_validity date raw w z =
    let p = build_email_path uid uid_validity date in
    elim (Option-cases (read_eml p (files d.emails))) [
      | inl e ↦ (
        record d { emails = some (files d.emails ++ (record { path = p; raw = raw } ∷ [])) },
        ground arith,
        λ q. read_eml-append p q raw (files d.emails),
      )
      | inr (b, e) ↦ (d, ground arith, λ q. saved_before p q raw (files d.emails) b e)
    ]

-- In a store that is not read-only, with a date that is not zero: SaveEmail succeeds; every file that
-- was there before has the bytes it had, the saved path among them if it was there; and otherwise
-- the saved path, and no other, is new, with the bytes given.
pub save_email-first-wins :
    (st : FileStore) (d : Disk) (uid uid_validity : ℕ) (date : Time) (raw : List ℕ)
    → is_read_only st.mode ≡ false
    → is_zero date ≡ false
    → let (r, w) = save_email st uid uid_validity date raw (calm d) in
      (r ≡ done tt)
      × ((q : EmailPath)
          → read_eml q (files w.disk.emails)
            ≡ or_else
                (read_eml q (files d.emails))
                (if same_path (build_email_path uid uid_validity date) q then some raw else none))
save_email-first-wins st d uid uid_validity date raw w z =
    let (d', run, saved) = save_email_lem st d uid uid_validity date raw w z in
    subst
      (λ out. (out.0 ≡ done tt) × Saved (build_email_path uid uid_validity date) raw d out.1.disk)
      (sym run) (refl, saved)

-- the entry of the index with this key that stands first
abbrev pub entry : ℕ → ℕ → List EmailMeta → Option EmailMeta
entry uid v [] = none
entry uid v (e ∷ es) = if e.uid == uid && e.uid_validity == v then some e else entry uid v es

abbrev pub is_entry : ℕ → ℕ → List EmailMeta → Bool
is_entry uid v es = elim (entry uid v es) [ none ↦ false | some _ ↦ true ]

-- no two entries have the same key
abbrev pub UniqueKeys : List EmailMeta → Type 0
UniqueKeys [] = Unit
UniqueKeys (e ∷ es) = (entry e.uid e.uid_validity es ≡ none) × UniqueKeys es

entry-append :
    (uid v : ℕ) (m : EmailMeta) (es : List EmailMeta)
    → entry uid v (es ++ (m ∷ [])) ≡ or_else (entry uid v es) (entry uid v (m ∷ []))
entry-append uid v m [] = refl
entry-append uid v m (e ∷ es) = ground (arith, entry-append uid v m es)

UniqueKeys-append :
    (m : EmailMeta) (es : List EmailMeta)
    → entry m.uid m.uid_validity es ≡ none
    → UniqueKeys es
    → UniqueKeys (es ++ (m ∷ []))
UniqueKeys-append m [] n u = (refl, tt)
UniqueKeys-append m (e ∷ es) n u = (
  ground (arith, entry-append e.uid e.uid_validity m es),
  UniqueKeys-append m es (ground arith) u.1,
)

keys_of_lem :
    (uid v : ℕ) (es : List EmailMeta) (keys : Keys)
    → keys_of es keys uid v ≡ (keys uid v || is_entry uid v es)
keys_of_lem uid v [] keys = ground arith
keys_of_lem uid v (e ∷ es) keys = ground (arith, keys_of_lem uid v es (add_key e keys))

-- the set of the loop holds the keys of the index
abbrev Knows : List EmailMeta → Keys → Type 0
Knows es keys = (uid v : ℕ) → keys uid v ≡ is_entry uid v es

-- no meta has a zero date
abbrev pub all_dated : List EmailMeta → Bool
all_dated [] = true
all_dated (m ∷ ms) = not (is_zero m.internal_date) && all_dated ms

append_new_zero :
    (ms : List EmailMeta) (keys : Keys) (out : List EmailMeta)
    → all_dated ms ≡ false
    → append_new ms keys out ≡ none
append_new_zero [] keys out h = ground arith
append_new_zero (m ∷ ms) keys out h =
    ground
      (arith, append_new_zero ms keys out, append_new_zero ms (add_key m keys) (out ++ (m ∷ [])))

-- what the loop makes of the index `es`
pub record Merged (ms es out : List EmailMeta) : Type 0 where
  pub entries : (uid v : ℕ) → entry uid v out ≡ or_else (entry uid v es) (entry uid v ms)
  pub unique : UniqueKeys es → UniqueKeys out

append_new_lem :
    (ms : List EmailMeta) (keys : Keys) (es : List EmailMeta)
    → Knows es keys
    → all_dated ms ≡ true
    → (out : List EmailMeta) × (append_new ms keys es ≡ some out) × Merged ms es out
append_new_lem [] keys es k h =
    (es, refl, record { entries = λ uid v. ground arith; unique = λ u. u })
append_new_lem (m ∷ ms) keys es k h = elim (Bool-cases (keys m.uid m.uid_validity)) [
  | inl e ↦
      let (out, run, g) = append_new_lem ms keys es k (ground arith) in
      (
        out,
        ground arith,
        record { entries = λ uid v. ground (arith, g.entries uid v, k uid v); unique = g.unique },
      )
  | inr e ↦
      let k' : Knows (es ++ (m ∷ [])) (add_key m keys) =
        λ uid v. ground (arith, k uid v, entry-append uid v m es) in
      let (out, run, g) = append_new_lem ms (add_key m keys) (es ++ (m ∷ [])) k' (ground arith) in
      (
        out,
        ground arith,
        record {
          entries = λ uid v. ground (arith, g.entries uid v, entry-append uid v m es);
          unique =
              λ u. g.unique (UniqueKeys-append m es (ground (arith, k m.uid m.uid_validity)) u);
        },
      )
]

pub merge_metas_lem :
    (ms es : List EmailMeta)
    → all_dated ms ≡ true
    → (out : List EmailMeta) × (merge_metas ms es ≡ some out) × Merged ms es out
unfolding merge_metas
merge_metas_lem ms es h =
    append_new_lem ms (keys_of es (λ _ _. false)) es
      (λ uid v. ground (arith, keys_of_lem uid v es (λ _ _. false))) h

pub merge_metas_zero : (ms es : List EmailMeta) → all_dated ms ≡ false → merge_metas ms es ≡ none
unfolding merge_metas
merge_metas_zero ms es h = append_new_zero ms (keys_of es (λ _ _. false)) es h

-- In a store that is not read-only, and whose data file is absent or can be read, SaveEmailMetas with a
-- zero date among the metas fails and changes nothing.
pub save_email_metas-refuses :
    (st : FileStore) (d : Disk) (df : DataFile) (metas : List EmailMeta)
    → is_read_only st.mode ≡ false
    → Holds d df
    → all_dated metas ≡ false
    → save_email_metas st metas (calm d) ≡ (failed zero_internal_date, calm d)
unfolding save_email_metas unless_read_only save_data_file syscall pure throw ◌>>=◌
save_email_metas-refuses st d df metas w h z =
    ground (arith, load_data_file_lem d df h, merge_metas_zero metas df.emails z)

-- In a store that is not read-only, whose data file is absent or can be read and has no two entries
-- with the same key, and with no zero date among the metas: SaveEmailMetas succeeds and changes the
-- index of the data file alone; a key has the entry it had, or, where it had none, the first of the
-- metas with this key, and no two entries have the same key.
pub save_email_metas-first-wins :
    (st : FileStore) (d : Disk) (df : DataFile) (metas : List EmailMeta)
    → is_read_only st.mode ≡ false
    → Holds d df
    → all_dated metas ≡ true
    → UniqueKeys df.emails
    → (out : List EmailMeta) × (save_email_metas st metas (calm d)
        ≡ (done tt, calm (record d { data_file = some (parsed (record df { emails = out })) })))
      × ((uid v : ℕ) → entry uid v out ≡ or_else (entry uid v df.emails) (entry uid v metas))
      × UniqueKeys out
unfolding save_email_metas unless_read_only save_data_file syscall pure throw ◌>>=◌
save_email_metas-first-wins st d df metas w h a u =
    let (out, run, g) = merge_metas_lem metas df.emails a in
    (out, ground (arith, load_data_file_lem d df h), g.entries, g.unique u)
