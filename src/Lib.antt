-- ===== src/Lib.antt =====
-- Verification library of CS-BackupHelper, the backup engine below src/backuphelper.
--
-- A run of a job (runner.py) has its sources stage components, bundles and encrypts them, puts the
-- archive and its manifest to every destination, keeps track of the snapshots that are not yet
-- off-site, prunes each destination of the job's own snapshots, and leaves a record for the
-- healthcheck. A restore goes the other way. Every part is a module:
--
--   Base          shared names, lists, text as code points, sorting, dictionaries, results
--   Clock         `datetime` for aware UTC values, as the program uses it: no repository code
--   Config        config/models.py, the validated fields that the pipeline reads
--   Retention     retention/*.py: Policies has count.py, age.py, gfs.py and smart.py, Manager has
--                 manager.py; Count, Tiers, Newest and Safety have the proofs
--   Snapshots     snapshots.py: ids, places, scopes; `pending_owners` is in Runner.Offsite
--   Manifest      archive/manifest.py
--   Archive       archive/bundle.py: the members of a bundle that are extracted
--   Storage       destinations/base.py as an interface: the operations of the data dir and of
--                 buckets with the laws that the pipeline relies on; Storage.Memory is a storage
--                 in memory that keeps them
--   State         state.py: the records of runs and of the daemon's start
--   Encryption    encryption/engine.py, over the tool that runs as a process
--   Runner        runner.py: Status (job_status, _outcome), Engine (what a run calls outside),
--                 Produce (_produce and its helpers), Deliver (_build_destinations, _upload,
--                 _deliver), Offsite (_track_offsite, _maybe_drop_local), Prune
--                 (_apply_retention), Run (run_job), Restore (restore_snapshot)
--   Tools         the processes and files that the sources of databases call, an interface
--   Postgres      sources/postgres.py: Objects, Listing and Query (the target's catalog and the
--                 entries of a dump), Plan (what a restore replaces), Prelude (the SQL that drops
--                 it), Script (the header line that old servers reject), Target, Restore and Dump
--                 (the steps). Session and Restore.Server are no repository code: what psql,
--                 the server and pg_restore document of transactions
--   MariaDb       sources/mariadb.py: Report (what the second pass may print), Dump and Restore
--   S3Source      sources/s3_bucket.py: Files (the paths of keys), Mirror and Restore; Bucket says
--                 what the client does to a bucket
--   Filesystem    sources/filesystem.py over a directory tree as a value; Archive has the component,
--                 Listed says which directories were listed, Glob is `fnmatch`: no repository code
--   Healthcheck   healthcheck.py
--   S3            destinations/s3.py over the S3 client, on its own: the pipeline still meets it
--                 as a bucket of Storage. A file is read in chunks on fuel, one more than its bytes,
--                 which S3.Chunks shows to be enough for a positive chunk size. Bucket has what
--                 the client documents, and S3.Memory is a client in memory that does it
--   Notify        notify/manager.py
--   Loader        config/interpolation.py, on fuel, the length of the text, which
--                 Loader.Placeholders shows to be enough, and config/loader.py: Tree (merging),
--                 Schema (the types of the fields of config/models.py), Overrides, Paths and
--                 Apply (the overrides and the layers); the parsers are parameters
--   Redaction     logging_setup.py: the masking of log lines, and Data of configurations
--   Plugins       plugins/hooks.py and the class of a source in plugins/registry.py
--   Cli           cli.py: the choice of a job, prune, run_all_now, verify_snapshot, list
--
-- Code that changes state is a step from a world to a result and a world, and in the runner also
-- from the problems noted so far to those noted then (Runner.Act): a step that raises keeps both,
-- as Python does with the `errors` list of a run. An exception is a value of `Exn`; the texts of
-- problems and logs are constructors. A missing, null or empty text is the empty text where the
-- code tests it by truth. A JSON file is the value that it holds.
--
-- Other loops are structural recursion over the lists that the code walks. Numbers are natural;
-- `count` of the retention may be negative and is an integer; an exit code is 0 or another number.
-- A port is printed on fuel 5, which its bound of 65535 makes enough.
--
-- Taken as parameters: the storage behind the destinations, the sources of a run, the archiver,
-- the hooks, the notifier, the encryption tools, the S3 client, the retries, `redact` in a run, the
-- parser of ISO times, the processes and files of the database sources, and `isalnum` outside ASCII.
-- Digits are those of ASCII. Not modelled: the rest of the command line, the scheduler, the channels
-- of the notifier, the environment source, and what tar and gzip write; glob characters
-- in a snapshot id or a component's name; a work dir that other runs share.
pub mod Base
pub mod Clock
pub mod Retention
pub mod Config
pub mod Snapshots
pub mod Manifest
pub mod Storage
pub mod State
pub mod Encryption
pub mod Runner
pub mod Healthcheck
pub mod S3
pub mod Notify
pub mod Cli
pub mod Loader
pub mod Plugins
pub mod Postgres
pub mod Redaction
pub mod Filesystem
pub mod Tools
pub mod MariaDb
pub mod Archive
pub mod S3Source
