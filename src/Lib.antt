-- ===== src/Lib.antt =====
-- A verification library for tlsrpt-digest, the program that fetches TLS reports (RFC 8460) from a
-- mailbox, keeps them in a local store and reports failures and summaries to Slack.
--
-- The parts and their files:
--   Base: names and lemmas that the other files share. Base/Int has integers and the wrap-around of
--     int64, Base/Wrap what sums wrap around to, Base/Time instants in nanoseconds and the calendar,
--     Base/Number strconv.Atoi.
--   Tlsrpt (internal/tlsrpt/tlsrpt.go): the structure of a report, and HasFailure; Tlsrpt/Parsing is
--     ParseJSON and ParseGzip, over decoders that are parameters.
--   Mailparse (internal/mailparse/mailparse.go): ExtractAttachments, on the tree that the MIME readers
--     of the Go library give for a message.
--   Store (internal/store): Store/Types has the files of the store as one record, `Disk`.
--     Store/Io is the operating system: a procedure takes a `World`, a disk and a script of faults,
--     and each system call takes the next fault, which lets it pass, makes it fail, or stops the
--     process at it; an empty script is a run without faults. Store/Sentinel (sentinel.go),
--     Store/Recovery (recovery.go), Store/Open (Open of store.go), Store/Reports (reports.go) and
--     Store/Emails (emails.go, with LoadEmails in Store/Emails/Load) have the operations, under the names of the Go methods.
--     Store/Triple is a logic for what holds at every point where a procedure can break off;
--     Store/Recovery/Crash and Store/Open/Crash use it. Store/Untouched is one for procedures that
--     leave the disk as it is, and Store/Partial for what holds when a procedure is done.
--   Config (internal/config): the defaults and the validation. The certificate files are a parameter.
--   Notify (internal/notify): Notify/Retry is postWithRetry of retry.go, over a server and a context
--     that are parameters. Notify/Summary is GenerateSummary of aggregate.go and Notify/Text
--     TruncateText of format.go. Notify/Kinds has the types of types.go.
--     Notify/Message (format.go, message.go) has the messages to Slack, with Notify/Message/Alerts and
--     Notify/Message/Summaries; Notify/Handler (handler.go, helpers.go, validate.go) is the handler that
--     buffers records and posts their messages.
--   Cmd (cmd/tlsrpt-digest): Cmd/Recover (recover.go), Cmd/Gc (gc.go) and Cmd/Duration
--     (duration.go). The commands run on a store that Open gives and on a mail server that is a
--     parameter; the trace of a gc run lists what it asked of the server, notified and logged.
--     Cmd/Fetch (fetch.go) is the fetch command, written in Cmd/Session: a run on the world of the
--     store with a trace, which can stop with an exit code or break off. Cmd/Session/Logic is the
--     logic for what holds after such a run, Cmd/Session/Stable its rules for the steps that only
--     look and notify, Cmd/Session/Success what holds when it goes on. Cmd/Reprocess (reprocess.go)
--     is the reprocess command, written the same way, and Cmd/Summary (summary.go) the summary
--     command. Cmd/Attachments has what a command does with the attachments of a mail.
--   Examples: the theorems at concrete inputs.
--
-- How the code is modelled. uint32 and the fields of type int in files are numbers; an int or
-- int64 that the code computes with or checks for a sign is an integer. A file is absent, decodes,
-- or is garbage; JSON, TOML and gzip themselves belong to the standard library and are not
-- modelled. atomicWriteFile is one system call, since its effect is that of the rename at its end.
-- os.RemoveAll of the staging directory can stop half way. Loops are recursion on the list or on
-- the number of attempts left, so no fuel is needed. Locks are calls that may fail; processes that
-- run at the same time are not modelled, nor are empty directories, permissions and the text of
-- messages and logs.
--
-- Not modelled: the IMAP client, the attributes by which slog carries a notification to its
-- handler, and the start-up of the program.
pub mod Base
pub mod Tlsrpt
pub mod Store
pub mod Cmd
pub mod Notify
pub mod Config
pub mod Mailparse
pub mod Examples
