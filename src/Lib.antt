-- ===== src/Lib.antt =====
-- Verification library of monetdroid, a web front end for sessions of the claude CLI.
--
-- pkg/monetdroid is the program. A session (pkg/monetdroid/session.go) holds the state of one
-- conversation; the hub (pkg/monetdroid/hub.go) takes each message of the CLI, changes the session,
-- hands the message to the session model (pkg/monetdroid/model.go) and sends HTML events to the
-- browsers through the event log. What is shown besides is derived from the log of messages
-- (pkg/monetdroid/bgtask.go), from output that is streamed (pkg/monetdroid/extractor.go) and from git
-- (pkg/monetdroid/diffparse.go). pkg/kb is the store of notes that sessions share.
--
-- Texts are lists of bytes, as Go strings are. Go maps from strings are association lists without an
-- order of their own; a nil map and an empty one are not told apart unless a comment says so. Locks
-- are not modelled: each method that holds its lock throughout is one step, and histories are lists of
-- steps. The numbers of events, of requests and of lines in diffs and buffers, and the sums of
-- tokens, are their 64 bits and wrap. Other counters, which grow by one with a message, a line or an
-- entry, numbers that are only read and passed on, and lengths of lists in memory, are natural
-- numbers. Slices are values: no property depends on two slices that share their memory.
--
-- Prelude passes on the names that all modules share. Prelude/Lists and Prelude/Texts have lists over
-- native numbers and the text functions of the package strings, Prelude/Maps has maps, Prelude/Split
-- has strings.Split and strings.Fields, Prelude/Parts what splitting and joining undo, Prelude/Slots
-- the contents of channels of capacity one.
-- Types: ServerMsg, tool inputs, costs (pkg/monetdroid/types.go, pkg/claude/protocol/protocol.go).
--   Decimal numerals are printed with as many rounds as the number, of which each divides it by ten.
-- EventLog: the replay log, EventLog.Append and compactKey (pkg/monetdroid/hub.go).
-- Session/Chain: the active branch, AdvanceTip, SetTip, activeSet (pkg/monetdroid/session.go). The
--   walk has fuel for two more rounds than there are links, which is proved to be enough.
-- Session/Queue: the queued messages and handleCommandLifecycle (session.go, hub.go).
-- Session/Sending: SendMessage (hub.go) with the automatic label (session.go).
-- Session/BashBuffer: BashStreamBuffer (session.go). Session/Agents: the table of sub-agents.
-- Session/Todos: the task list. Session/BashSlot: the foreground Bash command and who may see it.
-- Stream: handleStreamEvent and handleRawStreamEvent (pkg/monetdroid/claude.go), what a session does
--   with a message of the CLI: Stream/System, Stream/Blocks and Stream.antt have its cases, and
--   Stream/Notification the pattern of finished background commands. A handler gives the session
--   after it and its broadcasts and other effects in their order. Messages come decoded from JSON.
-- History: the transcripts of sessions (pkg/monetdroid/history.go), and what loadSessionFromDisk
--   (pkg/monetdroid/handlers.go) makes of one. A transcript is the list of its decoded lines; a map of
--   models is, for each loop over it, a list in the order of that loop.
-- Process: the control protocol with the CLI (pkg/claude/process.go). A request, the arrival of a
--   response, its taking by the caller and a give-up are steps in any order.
-- Sandbox: the mounts of a container and the checks of its configuration (pkg/sandbox/mounts.go,
--   pkg/sandbox/sandbox.go). What the code asks of the file system is a parameter.
-- Editing: findUserMessage, handleEditResend and handleCancelQueue (pkg/monetdroid/handlers.go), the
--   edit of a message that was sent and the taking back of one that waits. What the claude process answers is a parameter.
-- Permissions: the requests of the CLI for a permission, from HandlePermission (session.go) to the
--   answer of the user, handlePerm (handlers.go). Channels are numbered, as those of Process; a handler
--   whose channel is full is kept in a list until there is room.
-- Streaming: the deltas of an answer that is being written, from the accumulators of session.go to the
--   events that Broadcast logs (hub.go). The HTML of the events is a parameter.
-- Streaming/Feed: which messages Broadcast logs, and when it flushes the accumulators (hub.go).
-- RenderContext: precomputeRenderContext (hub.go).
-- Reviews: the comments of a review and their message (review.go); sort.Slice is a parameter that
--   takes the comparison, and is only relied on to keep the elements and to sort them.
-- Stores: the session tracker, the labels and the model commands (session_tracker.go, models.go).
-- Git: the readers of `git worktree list`, `git status` and `git diff` (git.go); git's output is an argument.
-- Kb: the knowledge base (pkg/kb/ops.go, pkg/kb/kb.go), a map of files. The git commands and
--   filepath.Join are parameters.
-- Model: SessionModel with BuildModel and Apply (model.go). BgTask: deriveBgTasks (bgtask.go).
-- Extractor: the reader of `go test` output (extractor.go). The regular expressions are written as
--   functions on the bytes of a line.
-- DiffParse: the parser of unified diffs (diffparse.go). The loop over hunks is structural, with the
--   number of lines that are still to be skipped.
--
-- Not modelled: the other HTTP handlers, rendering to HTML, processes, files, git commands, timers and the
-- goroutines that connect them, the regular expression engine, and JSON.
pub mod Prelude
pub mod Kb
pub mod Git
pub mod Reviews
pub mod Streaming
pub mod RenderContext
pub mod Stores
pub mod Types
pub mod EventLog
pub mod DiffParse
pub mod Extractor
pub mod Session
pub mod Stream
pub mod History
pub mod Process
pub mod Sandbox
pub mod Editing
pub mod Permissions
pub mod BgTask
pub mod Model
