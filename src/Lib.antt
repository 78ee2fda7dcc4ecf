-- ===== src/Lib.antt =====
-- Verification of parts of Scholight, a service that searches papers, extracts web documents and
-- writes literature surveys. The library models the code that keeps shared resources within their
-- bounds, and the steps that decide what the paper store holds.
--
-- The program. A web extraction request enters through a gate that bounds how many run at once
-- (BoundedGate), reserves memory for its stage from a process-wide budget (MemoryBudget), and
-- leaves its document in a cache from which later requests read pages by signed cursors
-- (ExtractResultCache). The pipeline cuts papers into chunks, and the store writes papers and
-- chunks with several workers.
--
-- A literature survey is a row of the database that goes from its drafts, which a task or the user
-- writes, over a job that a task runs to its archive. A request reserves a place in the user's daily
-- quota, which the end of the survey gives back or charges. Each task is a compute attempt: it is
-- reserved within limits, launched on ECS, claims its draft or job, renews its lease, commits
-- checkpoints, and ends by an event that may come late or twice. All of that happens in transactions
-- on the same tables, which several processes run.
--
-- The files.
--   Prelude: lists over the native numbers, integers, texts, objects in a store.
--   Extract/Gate: scholight/web_extract/admission.py. Futures stand in a store, the gate's queue
--     lists their references; `acquire` and `release` are the methods of the same name, `abandon`
--     is the handler of a cancelled or timed out wait. Extract/Gate/System has one step for each
--     part of a coroutine between two suspensions, so that every schedule is a sequence of steps.
--   Extract/Budget: scholight/web_extract/reservations.py. `estimate`, `replace`, `startup`,
--     `transfer`, `close` and `release` are the methods; the memory sample and the answer of
--     `admit` are inputs. Extract/Budget/System adds all leases and worker starts, Extract/Budget/Retry
--     follows a request that is refused and asks again.
--   Extract/Cursor: `_new_cursor` and `_position` of scholight/web_extract/cache.py. The signature
--     is a parameter, of which only the length and the alphabet are assumed.
--   Extract/Cache: the class ExtractResultCache of the same file. Entries are a list in the order
--     of the ordered dictionary. Clock readings, drawn tokens and measured sizes are inputs.
--   Extract/Spool: scholight/web_extract/spool.py, the scratch files and their allowance. Whether the
--     operating system carries out a call is an input. `size` is the file's own counter.
--   Extract/Guard: MemoryGuard of scholight/web_extract/memory.py. The sample, the two readings of the
--     clock, how far the reclaim task has come, and the notes on pressure that other coroutines make
--     while `tick` sleeps are inputs of `tick`.
--   Store/Slices and Store/Concurrent: `batched` of scholight/store/client.py, and `_run_workers`'
--     sharding and `_worker_insert_chunks` of scholight/store/concurrent.py. The collection of the
--     vector database is a parameter with the documented effect of delete and insert; a delete's
--     filter is given by its quoted texts, escaped by `escape_sql` of scholight/store/client.py.
--   Pipeline/Chunker: `_split_character` of scholight/pipeline/chunkers/md_chunker.py.
--   Survey/Progress: scholight/survey/progress.py. Both tables and both functions; the Unicode case
--     folding is a parameter.
--   Prelude/Result and Prelude/Rows: results of code that raises, and tables as lists of rows.
--   Survey/Tables, Survey/Lifecycle, Survey/Start, Survey/Cancel, Survey/Settle, Survey/Recover,
--     Survey/Leases, Survey/Claim: the transactions of scholight/db/queries_survey.py and the lock of
--     scholight/db/survey_locking.py, each a function of the same name on the tables. A transaction
--     holds its locks until it commits, so that transactions follow one another; it writes nothing
--     when it raises, and when PostgreSQL fails. The time of the transaction and the identifiers that
--     it draws are arguments; a taken primary key is an error of the database.
--   Survey/Ledger: the modelled transactions of this file and of the two below as steps of the tables
--     (Survey/Ledger/System, with those of drafts and tasks in Survey/Ledger/WorkCalls), over which the
--     ledger of the daily quota and its limit are followed.
--   Survey/Drafts: scholight/db/queries_survey_drafts.py, the drafts of a survey. The file itself has
--     the requests, completions and failures, Survey/Drafts/Claim the fair queue, Survey/Drafts/Leases
--     the heartbeat and the recovery.
--   Survey/History: the transactions of all three files that write drafts, as steps of the tables
--     (Survey/History/System), over which the numbers of the drafts are followed. Transactions that
--     leave the drafts alone, and deletions, are there arbitrary steps.
--   Survey/Attempts: scholight/db/queries_survey_attempts.py, the tasks that compute a draft or a job.
--     Candidates and Reserve have the fair choice of a work item, Launch the start of a task and the lists that the
--     control plane reads, Claims what a task claims, Checkpoints its commits and heartbeats, Details
--     what is stored of a failure, Stops the end of a task. The aggregate of a survey is locked as
--     Survey/Tables has it; `clock` is the time of the process where the code reads that one.
--     Survey/Attempts/Bound has the transactions as steps of the tables, over which the attempts of a
--     work item are counted; Capacity, Pointer,
--     Register and Events follow single calls; Register has the abstract register that a commit refines.
--
-- Fuel. `range_from` has a round per item, and a positive step leaves some over. `drop_oldest`
-- has a round per entry, since each round drops one. `decimal_from` has as many rounds as the
-- number, which is more than its digits. `split_from` has a round per character and one more;
-- whether that is enough depends on the text, and the results say when.
--
-- Numbers. Sizes and times are natural numbers of any size, as Python's integers are; counters
-- that the program decrements are integers. Nothing here is bounded by a machine width.
--
-- Not modelled: `recover_archived_survey_contract_failure`, which adds a success to the daily usage
-- without comparing it with a limit, and `repair_degraded_survey_evidence`, both of
-- scholight/db/queries_survey.py, and the change of a user's limit by an administrator, so that the
-- results on the ledger speak of the other transactions; what the scratch files have on the disk,
-- where a write that fails may leave bytes that `size` does not count and where worker processes write
-- to the paths directly; `Spool.close` and the files that `Spool.start` removes; reading the memory files
-- and the monitor's loop; metrics and logging; the event loop itself, of which only the order of
-- steps matters; `retained_size`, which walks Python objects; the paper worker, the thread pool
-- and the summing of its results; the recursive splitter, merging and overlap of the chunker;
-- requests to remote services; error messages, titles and storage addresses of surveys, messages
-- of users, the hash of a manifest and the peak memory of a task, the checks of the schema on
-- texts, the outbox that a trigger of the schema fills, and the queries that only read a survey
-- for display; the rest of the survey, the API, the command line and the front end.
pub mod Prelude
pub mod Extract
pub mod Store
pub mod Pipeline
pub mod Survey
