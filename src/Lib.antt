-- ===== src/Lib.antt =====
-- The core logic of InfraScope, the backend under app/ that watches shops' printers, tills,
-- computers and switches: what it stores, when it calls a device offline, what it does to hardware
-- on its own, and how it rolls software out. A model of each part, and theorems about it.
--
-- Parts, and the files that model them:
-- Core/BoundedCache: `BoundedTTLCache` of app/core/bounded_cache.py. The OrderedDict is a list
--   from the least to the most recently used key; Entries holds the list operations, Validity the
--   invariant, Reads what can be read after each call. Times are ticks of the clock argument.
-- Core/RedisLock: app/core/redis_lock.py, over a record of the string commands of Redis with their
--   laws; Exclusion has the callers' leases and every order of calls.
-- Core/TaskRegistry: `TaskRegistry` of app/core/task_registry.py; Ownership has every order of
--   starts, ends and callbacks.
-- Poll/Resilience: app/services/poll_resilience.py. `decide_poll_state` and the pause in the
--   parent, the exchange with Redis in Store (`is_circuit_open`, `apply_poll_outcome`), where Redis
--   is a record of operations with the laws that its commands document. Confirm is about histories
--   of probes, Window about the pause, Breaker about the circuit, Outage about a Redis that fails.
-- Poll/Fleet: app/domains/inventory/computer_polling.py and
--   app/domains/operations/cash_register_polling.py, which feed the verdict of a probe to
--   Poll/Resilience and store what that shows; Outcomes is about a whole run.
-- Stock: app/services/cartridge_stock.py and app/services/cartridge_inventory.py over the tables
--   of app/domains/inventory/models.py (Tables). Catalogue has the operations on one position,
--   Inventory the reconciliation with a counted document, Printers the sync with the printers. A
--   session is a value of `Db` passed on; an exception is an error of `Result`, after which nothing
--   is stored. Balance and Keys hold the lemmas on the two invariants; Ledger, Naming, Counting,
--   Closing, Reconcile, Supplies, Syncing and History use them.
-- Ap: app/domains/inventory/ap_registry.py (Registry, View, Outcomes) and
--   app/domains/inventory/ap_auto_reboot.py (Reboot, Cycle). What the switch answers is the record
--   `Env`; what is done to it is the trace `power_cycled`. The readings of the clock within one
--   cycle are one value. Escalation, Merging, Attention, Targets, Choice and Hardware are about
--   them.
-- Push: app/domains/remote_access/push_jobs.py (Jobs, Execute) with the functions of
--   app/domains/remote_access/service that it calls. Orders takes every commit of that file as a
--   step of its own, in any order; Outcome is about one execution, which
--   reads the clock at its start, at the request of a rollout and at its end. Its device rows have
--   the columns that a push reads or writes.
-- Remote: app/domains/remote_access/service/ over the whole device row of
--   app/domains/remote_access/models.py (Device). Labels and Rows are devices.py, Inventory and
--   Mirror inventory.py, Deployment deployment.py, Console and Sync console.py, AddressBook
--   address_book.py, Accounts accounts.py. The table is a list of rows; what the console lists, and
--   whether it takes a call, are arguments, and the calls that it gets are results. Changes has
--   every run as a step; Kept, Requests, Names and Renaming hold what the steps leave alone, and
--   Unique, Background, Healing, Readiness, Seeding, Releasing, Deleting, Sharing and Logins are
--   about them.
-- Net: the probes of app/domains/inventory/reachability.py (Reachability), and the two compared
--   (Agreement).
-- Ml: app/ml/retention.py (Retention, Pruning).
-- Common: names, list functions and integers on the native numbers. Tests: concrete inputs.
--
-- Poll/Fleet takes the verdicts that Net gives and writes the inventory that Remote mirrors. Ap
-- reads the registry that the scans of the same cycle have written.
--
-- Bounds and fuel: numbers of the program are unbounded, as in Python; quantities and times are
-- natural numbers, since the schemas refuse negative ones. Two loops are on fuel. The wait for an
-- access point gets as many rounds as there are seconds in the longest wait, and every round takes
-- at least one. The pruning of snapshots gets one round more than there are rows, and every round
-- but the last deletes one; where it is not over by then, the result is none.
--
-- Identifiers are numbers that a function `new_id` hands out; where a theorem needs them to be
-- unused or different, it says so.
--
-- Not modelled: metrics, log texts, pauses and time zones; WinRM, SSH, sockets, the RustDesk
-- console and name resolution, whose answers are arguments; the Unicode tables behind `str.lower`,
-- `str.strip` and `str.isalnum`, which are arguments; the list queries; the other pollers, the
-- protocol clients, the toner forecast, the routes and the rendering of documents, which are mostly
-- I/O, text and glue.
pub mod Common
pub mod Core
pub mod Poll
pub mod Stock
pub mod Ap
pub mod Push
pub mod Remote
pub mod Net
pub mod Ml
pub mod Tests
