-- ===== src/Cmd/Fetch/Marking.antt =====
-- When cmd/tlsrpt-digest/fetch.go marks messages as seen, and which ones: the steps after the download.
use tlsrpt_digest.Base.{◌≡◌, ℕ, true, List}
use tlsrpt_digest.Cmd.Session.{Session}
use tlsrpt_digest.Cmd.Session.Stable.{Stable}
use tlsrpt_digest.Cmd.Fetch.{FetchRunner, BootContext, fetch_since}
use tlsrpt_digest.Cmd.Fetch.Order.{is_stored, is_delivered, Marks}
use tlsrpt_digest.Cmd.Fetch.Unseen.{unseen_in, Unseen}

-- the trace after a delivery
abbrev Delivered : List ℕ → Session → Type 0
Delivered uids s = Marks uids s × (is_delivered s.trace ≡ true)

abbrev Stored : List ℕ → Session → Type 0
Stored uids s = Marks uids s × (is_stored s.trace ≡ true)

module _ (r : FetchRunner) (boot : BootContext) where
  abbrev Expected : Session → Type 0
  Expected = Marks (unseen_in (r.server.fetch_meta (fetch_since boot.options boot.config r.now)))
