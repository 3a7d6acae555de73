-- ===== src/Lib.antt =====
-- A model of the conductor and of the worker of conductor-and-worker, with proofs about them. The
-- conductor polls a queue for alarms and tickets, stores them in two tables, decides which of them ask
-- for a worker, spawns the workers, serves them over gRPC, and shuts down once none is active. A worker
-- gets its files, lets an agent work on them, checks and publishes what the agent leaves, and uploads it.
--
-- Parts, with the directory conductor-and-worker/conductor/go-conductor unless another is named:
--   * Scheduler: go-db-scheduler/scheduler.go, with the statements of db-internal/sqlc-generated.
--     Store has the tables and the statements, as state passing with a list of faults that says
--     which driver calls fail: a session has the committed tables beside those of the open
--     transaction, a statement changes the latter, and one that is bound to the database itself
--     (`directly`) is committed at once; Messages parses bodies; Order
--     has the order of rows that a pass uses; Chains has the rolling one-hour chains; Alarms and
--     Tickets have the two halves of a pass; Run has RunScheduling, whose deferred Rollback drops a
--     transaction that was not committed, and the entry points that insert; Logging has the handler
--     of its log lines.
--   * Clock and Json: what the scheduler takes from Go's time.Parse and json.Unmarshal. The reader of
--     JSON text is a parameter (Decoder); its values and their fields are modelled.
--   * Transfer: sharedlib/file_transfer_chunks.go of conductor-and-worker. A file is the list of what
--     its reads return.
--   * Registry: serverside-worker.go. Workers are addresses in a store that only grows, since a
--     handler keeps its pointer after the registry dropped the worker.
--   * Server: grpcserver.go (Upload has its WorkerUploadsFiles) and file-transfer.go. What other
--     handlers do while one waits on the network is a function on the registry.
--   * Conductor: the poll loop and the spawn block of main.go, prepare-spawn.go, use-sheduler.go, and
--     DeleteMessage of poll.go. The scheduler's session and the registry are its state. Startup is runConductor up to the loop, with Open and Run of the scheduler, and what it returns
--     after its gate; Launchers is spawnfunctions.go and local-spawn-worker.go; Directories is about
--     the paths of file-transfer.go and prepare-spawn.go.
--   * Poller: the loop of poll.go over what its receive calls return and what each select finds, taken
--     or canceled; Settings has the variables that the poller is made from, and the receive call.
--   * Atlas: atlas/atlas-and-db-init.go, which checks or makes the scheduler's database, and Archives:
--     sharedlib/zip.go of conductor-and-worker. Host is the machine that these and Startup run on: a
--     state of any type, with what the packages os, os/exec and database/sql answer; its Joining is
--     filepath.Join.
--   * Names: util/names.go, over the text of names.txt and the random numbers.
--   * Secrets: worker/go-worker/cmd/get-secrets of conductor-and-worker, over what the service answers.
--   * Fargate: spawn_fargate.go, with the service and the loading of its configuration as parameters.
--   * AlarmMessages: parse_message.go, over what json.Unmarshal makes of a body.
--   * ShutdownGate: shutdowngate.go, as a fold over what each turn reads.
--   * Transcript: worker/go-worker/extract-transcript-text.go of conductor-and-worker, over the tokens
--     that the decoder yields.
--   * Worker: worker.go, worker-runtime.go, worker-files-github.go and file-transfer.go of the same
--     directory. The files, the repositories and the agent are one state of any type, and a record of
--     functions (Machine) says what reading, a command or a prompt does; another (Client) has the calls
--     of the conductor. Process is the monad of a run, which records the calls; Artifacts has the checks,
--     Publishing the report, the pull request and the issue, Transfers the two file transfers, and Main
--     the program's run, whose every way to end is a value; Debugging is the run that needs no
--     conductor, with skip-conductor-debugging.go. Service puts a worker's calls to the handlers of
--     Server.
--
-- How the parts meet: Conductor calls the scheduler's entry point on each message and gives each
-- decision that asks for a worker to the registry; Server's handlers find their worker in the
-- registry and move files by Transfer; ShutdownGate reads the count of active workers. The worker's
-- Transfers use the same Transfer, and make the messages that Server.Upload reads.
--
-- Numbers are unbounded naturals: identifiers, indices and sizes are int64 in the program, and no
-- table or file comes near 2^63. Loops run over a list, of rows, reads, messages, events or turns,
-- so a run is a prefix of an endless loop; the worker's correction loop runs over its 4 attempts. Two
-- definitions take fuel: the recursion on a transcript's tokens, two calls for each token and one,
-- and the digits of a number, one for each unit of it and one.
--
-- Not modelled: generated protocol code, what is printed, but for the form of the scheduler's log
-- lines, the closing of databases, channels and listeners, what an archive holds, the generator of test
-- data and the test applications.
mod Base
pub mod Text
pub mod Host
pub mod Archives
pub mod Atlas
pub mod Clock
pub mod Json
pub mod Scheduler
pub mod Transfer
pub mod Registry
pub mod Server
pub mod ShutdownGate
pub mod Conductor
pub mod Fargate
pub mod Names
pub mod AlarmMessages
pub mod Poller
pub mod Secrets
pub mod Transcript
pub mod Worker
