-- ===== src/Lib.antt =====
-- atc, the server of Atelier Code: its threads, terminals and spaces, projects, webhook inbox and event
-- hub.
--
-- A thread is a conversation with a coding agent. Integrations report what they observe of it, a
-- terminal may have it open, and clients rename, file, archive, delete and open it. The service
-- (internal/threads) keeps a view of all threads in memory, writes every change to the database
-- (internal/store/threads.go) before the view, and announces it on the event hub (internal/events).
-- Terminals (internal/terminals) are sessions of an external backend: passes of reconciliation derive
-- their status from an inventory and from the reports of monitors; each belongs to a space. Projects
-- (internal/projects) claim directories. Webhooks (internal/webhooks) accept deliveries of the public
-- endpoint into a durable inbox, from which a worker processes them. The tracker of Claude Code
-- (internal/integrations/claude/tracker.go) folds hook events into a status by the threads' ranking.
--
-- Which file models what:
--   Finite                  Go's maps, as association lists
--   Events                  internal/events/events.go
--   Threads/Record          store.ThreadRecord, TurnRecord and PendingTurnRecord; api.ThreadStatus and
--                           TurnState
--   Threads/Rank            Rank of internal/threads/turns.go
--   Threads/Turns           applyTurn, updateTurn, adoptResponse
--   Threads/Evidence        applyStatus, settleTurn, coerceRecord, mintPending
--   Threads/State           the Service's fields, the tables and the elementary writes (Update and
--                           InsertObserved of internal/store/threads.go), and the methods' monad
--   Threads/Metadata        applyMetadata, mostSpecific, contains
--   Threads/Observe         commit and coerceInactive of internal/threads/service.go
--   Threads/Holders         activeHolder and holder
--   Threads/Sessions        ObserveSession, createObserved, insert, classify
--   Threads/Leaving         ObserveStatus, Deactivate, TerminalRemoved, Sweep
--   Threads/External        ObserveExternal, ReleaseIntegration, ArchiveExternalThread
--   Threads/Requests        Update, Delete, DiscardExternal, SubmitTurn, ObserveTurnResponse
--   Threads/Projects        DeleteProject, Backfill
--   Threads/Opening         decideOpen, link, terminalUp
--   Threads/Resuming        Open, from its decision to the end of the launch
--   Threads/Reads           Get, List, LookupIdentity, ActiveThreadID, UnarchivedProviderIDs
--   Threads/Loading         Load
--   Threads/Calls           histories of these methods
--   Threads/Columns         insertThreadParams and threadFrom of internal/store/threads.go
--   Webhooks/Inbox          internal/store/webhooks.go with its statements in internal/store/queries.sql
--   Webhooks/Service        serveDelivery and Status of internal/webhooks/webhooks.go
--   Webhooks/Attempts       process, processDue, backoff, prune
--   Webhooks/Worker         New and the rounds of work
--   Terminals/State         the Service's fields and tables of internal/terminals, the wire shape, Load
--   Terminals/Reconcile     reconcile of internal/terminals/service.go, in its three phases
--   Terminals/Requests      Update, Delete, removeRecord; liveSpace of internal/terminals/spaces.go
--   Terminals/Create        create, commitCreate, awaitSettled
--   Terminals/Spaces        internal/terminals/spaces.go
--   Terminals/Histories     histories of these parts
--   Projects                internal/projects/projects.go
--   Placement               Name, Pattern and ID of internal/placement/placement.go
--   Ids                     New and NewLong of internal/ids/ids.go
--   Claude                  internal/integrations/claude/tracker.go
--
-- The state and its steps. `Service` has the maps of the Go struct of that name and the two tables of
-- the database. A method is a function from the state to the new state and a result, so an error
-- keeps what was written before it. The lock `ops` makes each method one step, and a history is a
-- list of them in any order. `World` holds what a call finds outside: the clock, which stands still
-- during one call, the ids that it draws, the directories that exist, the projects, the terminals,
-- Go's sort.Strings, and the writes that the database refuses. `Sweep` is one step here; in Go each
-- of its terminals is one.
--
-- The event hub is modelled apart from the service, which only lists what it publishes. Its sequence
-- numbers wrap at 2 ^ 64, a ring without room panics on its first publication, and a subscriber's
-- channel is the list of what its buffer holds.
--
-- Representation. A time is a number of nanoseconds whose 0 is Go's zero time. A pointer that may be
-- nil is an Option. Maps are iterated in the order of their list, which stands for one order that Go
-- may choose. `insert` draws ids until one is free: the draws are a list, and a list that runs out
-- reads as a storage failure. An update leaves the columns that its statement does not name. The state
-- of a turn is one of the constants of api.TurnState, since no code stores another text there.
--
-- Histories. A history holds the calls of Threads/Calls. DeleteProject and Load are not among them,
-- and the database changes by these calls only: the foreign keys that clear a column when a terminal
-- or a project is deleted act in other domains.
--
-- Webhooks. One call of the channel handler is one step, and so is one attempt; a handler of an
-- Integration is a function of the time, and what passes its deadline is part of what it returns.
-- Rounds of work that follow each other are on fuel; one more than the number of due deliveries is
-- enough while the clock stands still.
--
-- Terminals. Each part that holds a lock throughout is one step, so the phases of a pass stand apart
-- and other calls may come between them. The inventory, a report and whether the database refuses are
-- arguments. awaitSettled is on fuel: 821 turns are enough, since at most 40 inventories are complete
-- and at most 20 in a row fail.
--
-- Ids. The random bytes are a list of the buffers that are read, of any size; where Go reads on, a list
-- that runs out is `none`.
--
-- Not modelled: the wire shapes and their links, logging, the generated queries, the launch of a
-- resumed terminal and the wait for another open's launch, the ingress and the receiver of the
-- webhooks, the order of the lists of terminals and spaces, the UUIDs, the calls of systemd, and the
-- rest of the program: its other domains, the other Integrations, the HTTP server and the command line.
mod Shared
mod Tests
pub mod Finite
pub mod Events
pub mod Webhooks
pub mod Terminals
pub mod Claude
pub mod Projects
pub mod Ids
pub mod Placement
pub mod Threads
