-- ===== src/Cmd/Fetch/Final.antt =====
-- What the steps of cmd/tlsrpt-digest/fetch.go after the download leave stored when they go on.
use tlsrpt_digest.Base.{
  ◌≡◌, refl, sym, subst, ℕ, Bool, true, false, Option, none, some, ◌⊎◌, inl, inr, List, [], ◌∷◌,
  arith,
}
use tlsrpt_digest.Store.Types.{StoreError, EmailMeta, ReportInput, Disk}
use tlsrpt_digest.Store.Sentinel.{save_uid_validity}
use tlsrpt_digest.Store.Emails.{save_email_metas}
use tlsrpt_digest.Store.Partial.{Partial}
use tlsrpt_digest.Store.Partial.Writes.{
  Recorded, AfterIndex, save_email_metas-Partial, save_reports-Partial, save_uid_validity-Partial,
}
use tlsrpt_digest.Cmd.Recover.{exit_ok}
use tlsrpt_digest.Cmd.Session.{
  Event, asked_download, asked_seen, flushed, stored_metas, stored_reports, asked_meta, Session,
  Run, call,
}
use tlsrpt_digest.Cmd.Session.Logic.{
  Hoare, Hoare-return, Hoare-stop, Hoare-emit, Hoare-bind, Hoare-call, Called,
}
use tlsrpt_digest.Cmd.Session.Stable.{is_quiet, Stable, log_warn-Keeps}
use tlsrpt_digest.Cmd.Session.Success.{
  Whatever, On, Succeeds, finished, call-Hoare, On-Stable, Hoare-forget,
}
use tlsrpt_digest.Cmd.Fetch.{
  MessageMeta, MarkSeenError, read_only_mailbox, other_error, FetchRunner, BootContext,
  FetchMsgState,
}
use tlsrpt_digest.Cmd.Fetch.Download.{build_email_metas}
use tlsrpt_digest.Cmd.Fetch.Command.{
  collect_unseen_uids, marked, mark, fetch_mark_seen, or_stop, unless_flushed, finish, deliver,
  collected,
}
use tlsrpt_digest.Cmd.Fetch.Reads.{flush-Keeps, fetch_collect_reports-Keeps}
use tlsrpt_digest.Cmd.Fetch.Present.{all_saved, Mails}
use tlsrpt_digest.Cmd.Fetch.Metas.{email_metas, Entries}

-- the reports of the last SaveReports in a trace
abbrev pub stored_in : List Event → List ReportInput
stored_in [] = []
stored_in (stored_reports rs ∷ es) = rs
stored_in (e ∷ es) = stored_in es

quiet_event : (e : Event) (es : List Event) → is_quiet e ≡ true → stored_in (e ∷ es) ≡ stored_in es
quiet_event (stored_reports xs) es q = absurd (ground arith)
quiet_event (asked_seen xs) es q = refl
quiet_event (asked_download xs) es q = refl
quiet_event (stored_metas xs) es q = refl
quiet_event Event.connected es q = refl
quiet_event Event.closed es q = refl
quiet_event (asked_meta t) es q = refl
quiet_event (Event.warned x) es q = refl
quiet_event (Event.alerted x) es q = refl
quiet_event (Event.reported x) es q = refl
quiet_event (flushed x) es q = refl
quiet_event (Event.logged_dry_run a b c d) es q = refl

-- every message has its file and its entry, and the reports have theirs
abbrev pub Stored : ℕ → List MessageMeta → List ReportInput → Disk → Type 0
Stored v ms reports d =
    (all_saved v ms d.emails ≡ true) × Recorded (email_metas v ms) reports d.data_file

module _ (P : Disk → Type 0) (Q : Unit {0} → Disk → Type 0) where
  passes :
      (x : StoreError ⊎ Unit {0}) → Hoare (Succeeds P Q x) (or_stop x) (λ _. On (Q tt)) Whatever
  passes (inl e) = Hoare-stop _ (λ _ _. tt)
  passes (inr u) = Hoare-return tt (λ s h. h)

module _ (r : FetchRunner) (boot : BootContext) (v : ℕ) (ms : List MessageMeta) where
  -- with the reports that the trace says were stored
  abbrev pub Final : Session → Type 0
  Final s = Stored v ms (stored_in s.trace) s.world.disk

  Final-Stable : Stable Final
  Final-Stable = record {
    event = λ e q s h. subst (λ rs. Stored v ms rs s.world.disk) (sym (quiet_event e s.trace q)) h;
    world = λ s w e h. subst (Stored v ms (stored_in s.trace)) (sym e) h;
  }

  abbrev Reaches : {A : Type 0} → (Session → Type 0) → Run A → Type 0
  Reaches P m = Hoare P m (λ _. Final) Whatever

  marked-Final : (x : Option MarkSeenError) → Reaches Final (marked r x)
  marked-Final none = Hoare-return tt (λ s h. h)
  marked-Final (some other_error) = Hoare-stop _ (λ _ _. tt)
  marked-Final (some read_only_mailbox) =
      Hoare-bind (λ _. Final) _ _ (Hoare-forget (log_warn-Keeps Final-Stable _ _ _ _))
        (λ _.
          Hoare-bind (λ _. Final) _ _ (Hoare-forget (flush-Keeps Final-Stable r))
            (λ _. Hoare-return tt (λ s h. h)))

  mark-Final : (xs : List ℕ) → Reaches Final (mark r xs)
  mark-Final [] = Hoare-return tt (λ s h. h)
  mark-Final (x ∷ xs) =
      Hoare-bind (λ _. Final) _ _ (Hoare-emit {Q = λ _. Final} _ (λ s h. h))
        (λ _. marked-Final (r.server.mark_seen (x ∷ xs)))

  abbrev Confirmed : StoreError ⊎ Unit {0} → Session → Type 0
  Confirmed x s =
      Succeeds (Stored v ms (stored_in s.trace)) (λ _. Stored v ms (stored_in s.trace)) x s

  confirms : (x : StoreError ⊎ Unit {0}) → Hoare (Confirmed x) (or_stop x) (λ _. Final) Whatever
  confirms (inl e) = Hoare-stop _ (λ _ _. tt)
  confirms (inr u) = Hoare-return tt (λ s h. h)

  saves_uid :
      (s : Session)
      → Final s
      → let x = save_uid_validity boot.store v s.world in
        Called (λ x w. Confirmed x (record s { world = w })) (λ w. Unit) x.0 x.1
  saves_uid s h =
      let x = save_uid_validity boot.store v s.world in
      let P = Stored v ms (stored_in s.trace) in
      finished P (λ _. P) s x.0 x.1
        ((save_uid_validity-Partial
            (λ es f. (all_saved v ms es ≡ true) × Recorded (email_metas v ms) (stored_in s.trace) f)
            boot.store v).at
          s.world h)

  module _ (states : List FetchMsgState) where
    finish-Final : Reaches Final (finish r boot v states)
    unfolding finish fetch_mark_seen
    finish-Final =
        Hoare-bind (λ _. Final) _ _ (mark-Final (collect_unseen_uids states))
          (λ _.
            Hoare-bind Confirmed _ _ (Hoare-call _ saves_uid) (λ x.
              Hoare-bind (λ _. Final) _ _ (confirms x) (λ _. Hoare-return exit_ok (λ s h. h))))

    flushed_or_not : (ok : Bool) → Reaches Final (unless_flushed ok)
    flushed_or_not true = Hoare-return tt (λ s h. h)
    flushed_or_not false = Hoare-stop _ (λ _ _. tt)

    abbrev Indexed : Disk → Type 0
    Indexed = AfterIndex (λ es. all_saved v ms es ≡ true) (email_metas v ms)

    deliver-Final :
        (reports : List ReportInput) → Reaches (On Indexed) (deliver r boot v states reports)
    unfolding deliver
    deliver-Final reports =
        Hoare-bind (Succeeds Indexed (λ _. Stored v ms reports)) _ _
          (call-Hoare _ _ _ (save_reports-Partial _ boot.store (email_metas v ms) reports))
          (λ x.
            Hoare-bind (λ _. On (Stored v ms reports)) _ _
              (passes Indexed (λ _. Stored v ms reports) x)
              (λ _.
                Hoare-bind (λ _. Final) _ _ (Hoare-emit {Q = λ _. Final} _ (λ s h. h))
                  (λ _.
                    Hoare-bind (λ _. Final) _ _ (Hoare-forget (flush-Keeps Final-Stable r))
                      (λ ok. Hoare-bind (λ _. Final) _ _ (flushed_or_not ok) (λ _. finish-Final)))))

    collected-Final :
        (metas : List EmailMeta)
        → metas ≡ email_metas v ms
        → Hoare
            (Mails (λ es. all_saved v ms es ≡ true))
            (call (save_email_metas boot.store metas))
            (Succeeds (λ d. all_saved v ms d.emails ≡ true) (λ _. Indexed))
            Whatever
    collected-Final metas e = call-Hoare _ _ _ (
        subst
          (λ x.
            Partial (λ d. all_saved v ms d.emails ≡ true) (save_email_metas boot.store metas)
              (λ _. AfterIndex (λ es. all_saved v ms es ≡ true) x))
          e (save_email_metas-Partial (λ es. all_saved v ms es ≡ true) boot.store metas))

    pub indexes :
        Entries v ms states
        → Reaches (Mails (λ es. all_saved v ms es ≡ true)) (collected r boot v states)
    indexes e =
        Hoare-bind (Succeeds (λ d. all_saved v ms d.emails ≡ true) (λ _. Indexed)) _ _
          (collected-Final (build_email_metas states v) e)
          (λ x.
            Hoare-bind (λ _. On Indexed) _ _
              (passes (λ d. all_saved v ms d.emails ≡ true) (λ _. Indexed) x)
              (λ _.
                Hoare-bind (λ _. On Indexed) _ _ (Hoare-emit {Q = λ _. On Indexed} _ (λ s h. h))
                  (λ _.
                    Hoare-bind (λ _. On Indexed) _ _
                      (Hoare-forget
                        (fetch_collect_reports-Keeps (On-Stable Indexed) r boot v states))
                      deliver-Final)))
