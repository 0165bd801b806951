-- ===== src/Lib.antt =====
-- The Argo Workflows exporter, verified. Paths are from the repository's root.
--
-- The exporter lists the workflows of several clusters, folds them into a ledger of runs, and
-- publishes three objects to a bucket: workflows.parquet, runs.parquet and meta.json. A consumer
-- reads meta.json first and then the two data objects, and accepts them only as one generation.
--
-- Base       shared names, text, integers, lists, dictionaries, sorting, results of calls.
-- Clock      the parts of Python's datetime that src/main.py, src/ledger.py, src/meta_schema.py and
--            src/consumer.py use: strptime and strftime of `%Y-%m-%dT%H:%M:%SZ`, and days.
-- Json       decoded JSON values.
-- Taxonomy   src/failure_taxonomy.py: normalize_failure, failure_class, failure_columns. Laws says
--            which message and which rule decide, and Loader is _load_failure_classes.
-- Rows       the columns of src/parquet_io.py as records.
-- Kubernetes src/k8s_api.py: fetch_json, list_path, list_items. Turns, Listing,
--            Incomplete and Bounded follow its loop. Request is _local_request and the request of
--            fetch_json, and Request/Sent says with which credentials a listing is made.
-- Workflows  src/workflows.py: _validate_workflow; Times holds the timestamps, Extract template_of
--            and trigger_of, Failures failed_step, Row to_row, and Collect fetch_workflows.
--            Failures/First, Row/Identity and Collect/Accounts say what they return, and
--            Collect/Bounded that a collection ends. Collect/Aborted shows what ends all of it.
-- Config     src/config.py: load. Clusters is _parse_clusters, Integers is int(). Loaded and Raises
--            say what a configuration is like and what its loading raises.
-- Ledger     src/ledger.py: _cutoff, _identity, merge. The dictionary by_key is an association list
--            in insertion order. Spec describes the row of each key without the loops, and
--            Promise the rows and their order by their columns; Merge and Order compare `merge` with
--            them.
-- Sidecar    the dict `meta` of _run_cycle in src/main.py.
-- MetaSchema src/meta_schema.py: Schema is _check and META_SCHEMA, CrossField is
--            _cross_field_violations and validate. Contract says which values conform to a schema,
--            and Contract/Publishable which sidecars may be published.
-- Storage    src/s3io.py, the prefixes of src/config.py, and the stamp of src/parquet_io.py. Its
--            child Conform is conform of that file.
-- Consumer   src/consumer.py: is_fresh and _generation_rejection_reason; Read holds
--            select_generation_result and read_generation_result. Complete, Selection, Reading and
--            Accepts say what they accept and return. Availability is cluster_availability and
--            current_snapshot_rows, Metrics the counts and rates, Trends the trends, and History the
--            helpers that read runs.parquet.
-- Cycle      _run_cycle of src/main.py as a function from the outcomes of its calls and the bucket
--            to the bucket and the way in which it ends. Keys and Publish follow its uploads, Commit,
--            Atomic and Fresh relate the bucket to what a consumer reads from it. Completes says when a
--            cycle completes. Accepted composes Config, Workflows and the cycle.
-- Poll       _run_poll_loop of src/main.py: turns of a cycle, the record of its success and a wait.
--            Healthy, Marker and Readers follow the bucket, the health state and what a reader
--            accepts through them, Recovery says what one turn brings about, and Objects where the
--            bytes come from that three calls of a reader find at different moments.
-- Health     _HealthState of src/main.py, which the health endpoint answers from. Endpoint is do_GET of
--            _HealthHandler. Ready relates the answers to the time of the last success, and
--            History to the calls that were made before. Threads has
--            the same methods one access at a time, and a lock, for any number of threads; Inv, Moves
--            and Linear relate their interleavings to calls one after another.
-- Process    main, _serve_health and _stop_health of src/main.py, and client of src/s3io.py; Shutdown
--            says what a run leaves behind.
-- Examples   concrete data, and the theorems there.
--
-- Effects are explicit. The outcome of each call to the object store is an argument: a get returns
-- a body, no such key or an exception; a put stores the object, raises before it is stored, or
-- raises after. A list of outcomes that ends early is a process that is killed. An exception is an
-- `err` of Base/Results. The loop of list_items ends only if the server's chain of pages does: its
-- model takes a bound on the requests. A bound of the number of pages is enough, and so is one more
-- than the number of tokens that the server knows. All other loops are structural.
--
-- pyarrow, boto3, regular expressions, SHA-256, str.lower and json are parameters. The theorems of
-- Cycle name what they need of them: a table that was stamped with an id is read back with it, and
-- the marker decodes to the sidecar that it was written from. A reader of
-- Cycle/Atomic, Cycle/Fresh, Poll/Readers and Poll/Recovery takes its three objects from one state
-- of the bucket; Consumer/Reading and Poll/Objects have no such restriction.
--
-- The consumer's spans of time are whole microseconds; the code compares floats of seconds, which are
-- exact for spans below 2 ^ 33 seconds. An integer that no float is near to raises OverflowError, as
-- there. The clocks of Health answer in whole seconds, where the code has floats of seconds: the
-- answer's age is rounded to three digits by the code, which leaves whole seconds as they are.
--
-- `run_poll_loop` takes the outcomes of its turns as a list; the list may end anywhere, and the loop
-- ends where the process is told to stop, where a wait raises, or where the process is killed. A time
-- that the theorems on a printed time are about is from the year 1000 on: `%Y` of the C library does
-- not pad earlier years.
--
-- The text of the token file and the first byte of the CA bundle are arguments, one pair for each
-- request. What a call of the HTTP library, the socket server, its thread or boto3 comes to is one
-- too. A thread that waits for the lock makes no move; what a clock answers is left open.
--
-- Not modelled: what the libraries do inside these calls, the delivery of a signal (it is the end of
-- a turn's wait), and logging.
pub mod Base
pub mod Clock
pub mod Json
pub mod Taxonomy
pub mod Rows
pub mod Ledger
pub mod Sidecar
pub mod MetaSchema
pub mod Storage
pub mod Consumer
pub mod Cycle
pub mod Examples
pub mod Kubernetes
pub mod Health
pub mod Workflows
pub mod Config
pub mod Poll
pub mod Process
