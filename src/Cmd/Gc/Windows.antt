-- ===== src/Cmd/Gc/Windows.antt =====
-- Which messages cmd/tlsrpt-digest/gc.go asks the mail server to delete.
use tlsrpt_digest.Base.{◌≡◌, leb, Bool, true, ◌&&◌, List, [], ◌∷◌}
use tlsrpt_digest.Base.Time.{Time}
use tlsrpt_digest.Store.Io.{M}
use tlsrpt_digest.Store.Sentinel.{FileStore}
use tlsrpt_digest.Store.Partial.{Partial}
use tlsrpt_digest.Config.{Config}
use tlsrpt_digest.Cmd.Duration.{cutoff}
use tlsrpt_digest.Cmd.Gc.{MailServer, GcOptions, Credentials, Event, asked_delete, GcRun}

-- the server is asked only to delete messages from before times that are not after `a`, nor after `b`
abbrev pub deletes_within : Time → Time → List Event → Bool
deletes_within a b [] = true
deletes_within a b (asked_delete t ∷ es) = leb t a && (leb t b && deletes_within a b es)
deletes_within a b (e ∷ es) = deletes_within a b es

module _ (a b : Time) where
  abbrev Within : GcRun → Type 0
  Within r = deletes_within a b r.trace ≡ true

  -- what a procedure gives, on any disk
  abbrev GivesWithin : M GcRun → Type 0
  GivesWithin m = Partial (λ _. Unit {0}) m (λ r _. Within r)

module _ (st : FileStore) (server : MailServer) (creds : Credentials) (cfg : Config)
    (o : GcOptions) where
  abbrev fetched : Time
  fetched = cutoff cfg.imap.fetch_days st.now

  abbrev summarized : Time
  summarized = cutoff cfg.window_days st.now
