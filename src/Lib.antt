-- ===== src/Lib.antt =====
-- Verification of media-shuttle: a service that takes links, fetches what they point to and uploads
-- it to a chosen target.
--
-- The program has three parts. media-shuttle-api takes requests, keeps their records and publishes an
-- event for each. media-shuttle-core consumes the events: it parses a link into sources, downloads
-- each and uploads it, either in one process (runtime.py) or as tasks of a broker (queue/tasks.py).
-- media-shuttle-tg is a front end and is not modelled. The parts share the event task.created.v1, the
-- names of the broker's queues and the commands that start and stop workers.
--
-- Files, and the code that they are about (paths from the repository's root):
--   Prelude, Py: the library's names and Python's values: texts, dictionaries, int(), sorted(), and
--     actions that change a state and may raise, with rules for invariants and for pre- and
--     postconditions (Py/Exec/Keeps, Py/Exec/Triple).
--   Core/Model: media-shuttle-core/core/models.py and enums.py; Core/Env: what Python's libraries,
--     the operating system and the environment give, as one record of parameters.
--   Core/Utils: utils.py (bool_env, normalize_url, make_idempotency_key, cleanup_local_download);
--     Cleanup is about the last.
--   Core/Contracts: queue/contracts.py. Core/Registry: plugins/parsers.py, downloaders.py and
--     uploaders.py. Core/Repository: storage/repository.py, an interface with its laws, Memory the
--     in-memory repository, which has them, and Mongo the one over a Core/Collection, which stands
--     for pymongo; RoundTrip, Refinement and Listing are about it.
--   Core/Sites: providers/parsers_sites and parsers_builtin.py: Common the functions of addresses and
--     names, Match the sites of an address, Mock and Keyed the parsers of mock mode, Builtin the list
--     of parsers; Names and Parsed are about them.
--   Core/Downloads: providers/downloaders_sites, downloaders_builtin.py and user_agents.py: the common
--     download, Live the downloads of live mode, Builtin the list; Builtin/Mock is about it.
--   Core/Uploads: providers/uploaders_sites and uploaders_builtin.py: rclone, Telegram the upload to a
--     chat, Builtin the list; Destinations and Clients are about Telegram.
--   Core/Pipeline: pipeline/service.py, run; Frame, Triples and Delivery are about it.
--   Core/Service: service.py and worker.py; Outcome is about run_task.
--   Core/Queues: the queue names of queue/tasks.py, queue/celery_app.py and queue/worker_process.py;
--     Nodes and Routes are about them, and Router is the router of tasks.
--   Core/Tasks: queue/tasks.py, with Created the body of the first task; Retry, Failure and Finalize are
--     about it. Core/Tasks/Signals: its handlers of Celery's signals; Told is about them.
--   Core/Runtime: runtime.py, queue/consumer.py and queue/publisher.py in memory; Drain is about it.
--   Core/Workers: storage/worker_registry.py in memory; Start is about it. Core/Workers/Mongo: the same
--     over a collection; Wish is about it.
--   Core/Control: queue/worker_control_runtime.py; Managed and Rounds are about it.
--   Core/Slots: the worker slots and command lines of queue/worker_process.py; Commands is about
--     them, and Reads about the queues that a worker reads and the messages routed to them.
--   Core/Supervisor: the supervisor of queue/worker_process.py, with Waits its waits and Run run_forever;
--     Reports, Shutdown, Ends, Stopped and Rounds are about it.
--   Api/Model, Api/Contracts, Api/Control, Api/Store, Api/Service, Api/Workers: media-shuttle-api/app,
--     models.py, contracts.py, worker_control.py, repository.py with queue.py, and service.py (tasks
--     in Api/Service, workers in Api/Workers). Api/Store/Mongo: the repositories over collections;
--     RoundTrip is about them.
--   Samples, Witness: inputs, and the theorems at them.
--
-- An operation is a function of its source's name. Code that changes state takes the state and gives
-- the new one; code that may raise gives a Result beside the state, and what was written before an
-- exception stays written. An exception is the text that str(exc) gives, which is all that the
-- handlers read.
--
-- Bounds and fuel. The wait for a process's end takes a hundred rounds of a tenth of a second, since
-- the deadline is ten seconds away, and that of the supervisor fifty; the clock is a parameter. The
-- supervisor waits for its workers without a bound: its loop takes a number of rounds and gives none
-- when they do not suffice, and a theorem says how many do. The loop of a worker takes the number
-- of its steps, as the source does; every other recursion is structural.
--
-- What the model assumes or leaves out. Providers, the clock, uuid4, the environment, urlsplit,
-- unquote, sha256, the files and the processes are parameters, of which no more is assumed than a
-- theorem's hypotheses say. A repository is an interface whose operations do not raise, and so
-- are a Core/Collection, the in-memory queue of the service and the control of workers that it is
-- given. A call of the tasks' broker may raise, and so may a write to the registry in the handlers of
-- Celery's signals. Case mapping covers ASCII letters. An event is a record with the keys of its schema and those that a retry adds.
-- Sharing of mutable records is modelled where the code relies on it (a record that update_status
-- returns is a copy), and else records are values. The threads of a pool run one after the other. The
-- listing of a folder is taken once. A document of MongoDB holds values of the types that the code
-- writes, or misses keys. A signal to the supervisor comes while it waits for its workers. Logging,
-- Redis, the Celery registration, the parsers of live mode, which read web pages, and the web framework
-- are not modelled. A download of live mode may give the source a new address in place; what the
-- pipeline reads of the source afterwards is modelled as it was before.
mod Prelude
pub mod Py
pub mod Core
pub mod Api
mod Samples
mod Witness
