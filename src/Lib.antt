-- ===== src/Lib.antt =====
-- SoundDock's playback engine (Go, internal/playback), the part of the server that decides what a
-- session plays: its queue, its cursor, its undo, who renders its audio, and its listening party; its
-- queue of background jobs (internal/jobs); the retention of its media files (internal/retention and
-- internal/mediabusy); what counts as listening (internal/listen); and the rate limits of its HTTP
-- interface.
--
-- A session is a row of playback_sessions with its rows of playback_queue_items and
-- playback_command_receipts: `Playback.Session.Dock`. The engine locks the row for the length of a
-- request, so that requests on one session follow one another, and each is a function on docks.
--
-- Parts and files, in the order in which they build on each other:
--   Base                 Booleans and ifs, lists and integers over the native numbers, results
--   Playback/Session     the rows and the errors (errors.go, engine.go, migrations/0001_init.up.sql)
--   Playback/Queue       the SQL on queue rows (engine.go: insertQueueTrack, addTracksTx; control.go;
--                        drop.go); Queue/Numbered, Rows, Insert, Remove, Move
--   Playback/Next        nextIndex, nextAlbum, nextSmart (shuffle.go); Bounds, Smart, Album
--   Playback/Extra       the readers of a request's `extra` map (extra.go); Json
--   Playback/Lease       the compare-and-swap of the renderer lease (lease.go) and
--                        SwitchRendererToBrowser (bind.go); Fencing, Takeover
--   Playback/Binding     the bindings of guilds to sessions (bind.go); OneGuild, Fence, Grant
--   Playback/Cursor      replaceQueueTx, clearKeepCurrent, move, removeAt, reorder,
--                        dropTracksFromSession; WellFormed, Follow, Frame, Drop
--   Playback/Undo        mergeUndoRows, replaceQueueRows, restoreUndo, toMap, parseUndoItems;
--                        Restore, RoundTrip, Payload
--   Playback/Control     controlTx, every action of its switch; Kept, WellFormed, Frame,
--                        Generation
--   Playback/Command     Engine.Control with its receipts (receipts.go); Replay, Revision
--   Playback/Party       party.go and party_perms.go; Order, Members, Rights
--   Playback/Position    CheckpointPlayhead and PersistPosition (playhead.go); Writes
--   Playback/Engine      Replace, Add, SetPosition (engine.go), DropTracks (drop.go), and every
--                        sequence of requests: Kept, Reachable
--   Httpapi/RateLimit    Limiter and Slots (internal/httpapi/ratelimit/limit.go); Windows, Slots
--   Jobs/Pools, Settings the pools of workers, their configuration (internal/jobs/pools.go) and how it is
--                        loaded and changed (jobs.go: Load, Apply); Bounds
--   Jobs/Rows            the table jobs and its unique index (migrations)
--   Jobs/Cancel          AllowCancel and what it reads (cancel.go)
--   Jobs/Queue           enqueue, EnqueueCoalesced, RequestCancel, Retry, EnqueueWait (jobs.go)
--   Jobs/Runner          claimOnce, runJob, fail, reapStale (jobs.go)
--   Jobs/Trace           every sequence of these statements; Updates, Sound, Orderly, Kept, Invariant for
--                        the table; Moves, Steps, Selected, Attempts for each job; Claims, Drain,
--                        Coalesce, Cancelling
--   Listen/Decide        plays and skips (internal/listen/decide.go, writer.go); Pass
--   Listen/Credit        Credit and who is a listener (credit.go); Fair
--   Listen/Shadow        ApplyShadow and the rows it writes (shadow.go); Qualify
--   Mediabusy            the counts of open streams (internal/mediabusy/busy.go) and the holds in
--                        media_holds (store.go); Counted
--   Retention/Policy     the policy of the administrator (internal/retention/policy.go); Water
--   Retention/Candidates the tracks that may be given up (candidates.go)
--   Retention/Busy       the tracks and libraries in use (busy.go); a payload is a value as in
--                        Playback/Extra
--   Retention/Prune      Run, Preview and prune (engine.go); Spared, Preview, InUse
-- The modules called Tests apply the theorems to small examples.
--
-- How the model reads the code:
--   * A UUID is a number, uuid.Nil is 0, and gen_random_uuid takes the next number of a supply. The
--     order of two UUID texts, which album shuffle uses, is the order of their 128-bit values.
--   * The queue rows are a list in their ORDER BY position. A loop of UPDATEs that writes the
--     positions of all rows is `renumber`.
--   * A float64 is the count of its units of 2^-1074. Integers from a request have the int64 range;
--     further overflow of INT columns is not modelled.
--   * A statement that fails (only a foreign key does here) ends the transaction, which is rolled back.
--     Connection errors and a missing session row are not modelled; nor are updated_at, notifications
--     and the recording of a requester's personal library.
--   * A map of a request has each key once. Users that a row names exist.
--   * uuid.Parse, UUID.String, rand.Intn, SHA-256 over the JSON of a request and the autoplay filler
--     are parameters, with what is asked of them as a hypothesis where a theorem needs it.
--   * The table jobs is a list of rows, and each statement a function on it; a step carries its own
--     time, and any order of steps is allowed, so that a worker that was given up may still end its run.
--     The handler of a job, the memory in use at each tick, and what the acquisition intents and the
--     retention runs hold of a job are arguments. A worker whose context has ended writes nothing. What
--     other packages write into the table is among the steps, but for the DELETE of old failed jobs
--     (internal/retention/logs.go): the theorems speak of the time between two of those.
--   * What a reply says and a request says back goes through JSON, which makes a float64 of an integer and
--     a text of a UUID (Playback/Extra/Json).
--   * A track comes to the retention with what the joins of its statement find for it, times are in
--     seconds, and a purge of a track answers the bytes that it gave, or fails. The database may change
--     between the choice of the tracks and the loop: the loop gets a disk of its own.
--   * A product of floats (a fraction of a duration, a time at a rate) is a parameter; what listened
--     time is bounded by asks that it is exact at the rate 1. The milliseconds of a listener, which only
--     grow by what is credited, are a natural number.
-- Every function recurs on a list, a text or a value, so no fuel is needed.
--
-- Not modelled: the look-up of sessions (session.go), writing tracks back
-- from the archive (unarchive), the views (Get, Queue, GetParty), and the other packages of
-- internal/, which bring music in, serve it, or drive this engine.
pub mod Base
pub mod Httpapi
pub mod Jobs
pub mod Listen
pub mod Mediabusy
pub mod Playback
pub mod Retention
