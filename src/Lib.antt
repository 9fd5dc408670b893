-- ===== src/Lib.antt =====
-- Drive Sanitization Manager: a model of the parts of the program that keep state, with theorems.
--
-- The program records drives at intake, and builds up, step by step, the authority to sanitize one
-- of them. Of its parts this library models:
--
-- * drive_sanitization_manager.py, in Records. A drive (Records.Drive: DriveRecord) and a batch
--   (Records.Batch: BatchRecord) are records whose fields are JSON values where Python does not hold
--   them to a type. `validate`, `transition_intake`, `add_drive`, `to_dict` and `from_dict` are the
--   functions of the same names; a method that changes its object returns the new object beside its
--   result, so that what an exception leaves behind is in view. Records.Guards has the module's
--   helpers (`_require_text`, `_status`, `_transition`, `_identifier`) and its exceptions
--   (RecordError). `str.casefold` is a parameter.
--
-- * sanitization_authorization.py, in Auth. Auth.Types has the frozen dataclasses, Auth.Text the
--   checks of texts, Auth.Binding the integrity of a trusted execution binding. Auth.Gate is
--   `satisfy_one_shot_execution_gate` on the fields of ApprovalRegistry that it uses; Auth.Approval
--   is `ApprovalRegistry.record_human_approval`, with the tokens of `secrets` as an argument and the
--   limit of 32 attempts that the code sets. Auth.Journal is DurableExecutionGateConsumptionJournal:
--   the integrity of an entry (Journal), its document and the checks of `_read_entries_locked`
--   (Document), the file, the lock and `_write_entries_locked` (Store), and `_reserve`,
--   `_rollback_reservation`, `_complete` and `entry_for_binding` (Operations). Auth.Durable is
--   `satisfy_durable_one_shot_execution_gate`, which calls the gate between a reservation and its
--   completion.
--
-- * executor_authorization.py, in Executor, and execution_attempt_journal.py, in Attempt. Both keep
--   records in a private file under a lock, which is modelled once, in Store, for the layout that
--   each of them gives: the document and the checks of `_read_locked` (Store.Document),
--   `_open_lock`, `_read_locked` and `_write_locked` (Store.File). Executor.Record and
--   Attempt.Record have the records with their integrity. Executor.Operations is `_authorize`,
--   `_reserve` and `entry_for_authorization`; Executor.Live is
--   `record_trusted_executor_authorization`, `reserve_executor_authorization` and the state that a
--   scope of a reserved authorization reads, with the live authorizations as a list of ids and
--   leases. Attempt.Operations is `record_execution_attempt`, with the checks of the capability and
--   the final safety cycle before the attempt is written, and `entry_for_authorization`. Tokens has
--   the loop that allocates an id, 8 attempts for an authorization; History has sequences of calls
--   that grant something.
--
-- * execution_seam.py, in Seam: the scope that gives the descriptor of a claim out once, as a state
--   with the operations `enter` (`__enter__`), `descriptor_locked` and `exit` (`__exit__`). It reads
--   the journal of Attempt.
--
-- * drive_discovery.py, in Discovery. Discovery.Parse is `_parse_device`, and Discovery.Annotate the
--   rest of `parse_lsblk_json`. drive_discovery_adapter.py, in Collector: what findmnt reports of
--   the root and of the critical directories, and the check of the topology. The loop of that check
--   keeps a stack of devices; it runs on fuel, of which the number of values in the array is enough.
--
-- Value is JSON data with Python's equality; Files is the file system as a journal sees it, with the
-- faults that the system may answer with at each operation; Platform is what the code takes from the
-- standard library (JSON text, SHA-256, ISO-8601 timestamps), as parameters, with what the code
-- relies on in Platform.Laws; Sort is Python's `sorted` by a text key; Prelude has the shared
-- helpers.
--
-- One of the faults is that `os.path.lexists`, which swallows OSError, does not find a file that is
-- there. The code then takes its journal for empty, and a call that adds an entry replaces it.
-- `Files.Looked` says of a call that its reading has not had this fault. The exit of a lease's scope,
-- which may raise behind a body that has returned, is an argument of the operations of Executor.Live.
--
-- An exception is the `err` case of a Result, with one constructor for each message. Loops but for
-- that of the topology are structural recursion and use no fuel; the loop of `os.write` runs over
-- the numbers of bytes that the system takes, and a list that ends stands for a write that takes
-- nothing. Numbers are unbounded, as Python's are.
--
-- Not modelled: `build_trusted_execution_binding`, whose result is an argument of the gate, the
-- other operations of ApprovalRegistry and the evaluation of decisions; the temporary file that a
-- fault may leave; an error of `flock`, which no handler catches; the entry and the exit of the
-- scope of a reserved authorization, and the checks of exact Python types; the leases, capabilities
-- and kernel objects, of which Attempt, Executor and Seam take what they read as arguments; the
-- commands, the configuration files and the other sources of the adapter of discovery; the command
-- line and the two synthetic harnesses. An operation of a store holds its lock from its reading to
-- its writing and is one step. Auth.Durable takes the steps of a call together;
-- Auth.Durable.Concurrent takes those of several calls in any order.
mod Prelude
mod Value
mod Sort
mod Files
mod Platform
mod Tokens
mod History
mod Samples
pub mod Records
pub mod Auth
mod Store
pub mod Executor
pub mod Attempt
pub mod Seam
pub mod Discovery
pub mod Collector
