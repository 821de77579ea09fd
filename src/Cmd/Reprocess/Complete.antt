-- ===== src/Cmd/Reprocess/Complete.antt =====
-- What a run of cmd/tlsrpt-digest/reprocess.go that ends with exit code 0 has done.
use tlsrpt_digest.Base.{◌≡◌, true, Option, ◌⊎◌, inl, inr, List}
use tlsrpt_digest.Store.Types.{StoreError, Eml, Disk}
use tlsrpt_digest.Store.Partial.Writes.{Recorded}
use tlsrpt_digest.Store.Emails.Load.{Loaded, load_emails}
use tlsrpt_digest.Store.Emails.Load.Covered.{covers, walked}
use tlsrpt_digest.Cmd.Session.{Session}
use tlsrpt_digest.Cmd.Reprocess.{Outside, ReprocessContext, build_reprocess_metas}
use tlsrpt_digest.Cmd.Reprocess.Rebuilt.{reports_of}
use tlsrpt_digest.Store.Io.{done, Fault}

module _ (o : Outside) (boot : ReprocessContext) (d : Disk) where
  -- LoadEmails has given this, on the disk as it was
  abbrev pub Came : Loaded → Type 0
  Came l =
      ((fs : List Fault) × ((load_emails o.lib.read_message o.walk
            (record { disk = d; faults = fs })).0
          ≡ done l))
      × (covers (walked o.walk d.emails) l ≡ true)

  abbrev Kept : Option (List Eml) → Type 0
  Kept es = es ≡ d.emails

  abbrev pub Rebuilt : Session → Type 0
  Rebuilt s =
      (l : Loaded) × Came l
      × (s.world.disk.emails ≡ d.emails)
      × Recorded (build_reprocess_metas l.emails)
          (reports_of o.lib boot.config.imap.max_message_bytes l.emails) s.world.disk.data_file

  abbrev Gave : StoreError ⊎ Loaded → Session → Type 0
  Gave (inl e) s = Unit
  Gave (inr l) s = Kept s.world.disk.emails × Came l
