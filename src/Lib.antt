-- ===== src/Lib.antt =====
-- A library about obsidian_sync, which keeps an Obsidian vault and a Google Drive folder the same on
-- several devices.
--
-- The program. Each file has a version vector, from a device's prefix to a hybrid clock
-- (src/version_vector.py). On the Drive a file's vector, deletion mark and hash stand in its
-- properties (src/drive_vv_codec.py); on the device they stand in the state (src/state.py). The
-- reconciler (src/reconciler.py) compares the state, a scan of the vault and the Drive's answers, and
-- returns actions. An action is recorded in the intent log (src/intent_log.py) before it is executed.
-- A remote change reaches the reconciler as the Drive client returns it (src/drive_client.py). While the
-- program runs, the poller (src/poller.py) hands the changes of the Drive to the engine
-- (src/sync_engine.py), and the watcher (src/local_watcher.py) those of the vault; the engine executes
-- the actions, keeps conflict copies (src/conflict.py) and moves deleted files to the trash
-- (src/trash.py).
--
-- The files.
--   Base       helpers: integers over the native numbers, dicts as lists of entries in their order,
--              sets of texts, decimal numerals, the order of texts.
--   Vector     `VersionVector`, its order, `update`, `merge` and `trim`.
--   Codec      `encode` and `decode` on the properties' texts.
--   State      `FileEntry`, `SyncState` and the operations in memory. File is the state file: `load`,
--              the writing and the backups; Scan is `scan_local_files` on a tree of answers.
--   Vault      the files of the vault by their path.
--   Trash      `TrashManager` (src/trash.py) on the vault and the trash directory.
--   Conflict   `ConflictResolver` (src/conflict.py).
--   Drive      the dicts that the client returns, and the end of `_normalize_change`. Retry is
--              `_execute_with_retry`, whose 14 requests are its fuel; Folders the test whether a file is
--              in the vault, with the client's caches, whose fuel is the length of the chain of folders;
--              Paging is `get_changes`, whose fuel is the limit of pages; Resolve is
--              `resolve_vault_rel_path`, with the 32 turns of the source; Listing is
--              `list_all_files`, whose fuel is the number of folders, and for each folder that of its
--              pages. Client has the requests of `DriveClient`, as a monad over a session, which is the
--              client's caches and the requests sent: Folder finds and creates folders, Content
--              uploads, downloads, moves and deletes, and Shared is the convergence file.
--   Reconcile  `decide` and `resolve_conflict`. Its children are Local (`_detect_local_changes`),
--              Remote (`_classify_remote`, `_remote_info_to_entry`), Actions (`_action_to_dict`),
--              Incremental (`run`) and Initial (`run_without_state`), and the proofs.
--   Intent     `IntentLog` on the lines of its file.
--   Convergence  the shared file of confirmed tombstones (src/convergence.py): Converged has what the
--              tests rest on, Retry the loop of conditional writes. The loop has seven attempts, as
--              in the source.
--   Engine     `SyncEngine` (src/sync_engine.py): the lock and the queue, the write-ahead record of an
--              action, echo suppression, and the actions for local and remote changes. Site is what
--              its methods call; Upload, Download, Deletion and Perform are the methods `_do_upload`
--              to `_do_conflict`, Convert makes actions of local and remote changes, Dispatch is the
--              two handlers, and Replay is `replay_intents`, the engine as the executor of the log's
--              replay. The other children are proofs.
--   Poller     `AdaptivePoller` (src/poller.py): Interval has what holds of the interval, Recovery what
--              follows repeated failures.
--   Watcher    `LocalWatcher` (src/local_watcher.py): the debounce timers and the events. A timer is
--              armed, has begun, or is gone; between two operations any armed timer may begin.
--   Config     `should_ignore` (src/config.py), with the star of `fnmatch`.
--   Hash       `compute_md5` (src/hash.py). The fuel of its loop is the number of bytes.
--   App        src/main.py, as a monad over the events so far: Refresh is `TokenRefreshCoordinator` and
--              `initial_reconcile`, Shutdown the end sequence, whose wait for the engine has 102 turns,
--              more than five seconds of sleeps, Start is `run_app` and Main the exit code.
--   Scripts    the maintenance scripts: StrayRoot is scripts/cleanup_stray_root_files.py, and
--              DriveDuplicates is scripts/cleanup_drive_root_duplicates.py.
-- A method that changes the state takes it and returns it. A dict is a list of entries with the
-- source's order of insertion; a set is a list of its members. What `None` or a missing key means is
-- an `Option`. Times of files are counts of a fixed fraction of a second, and the clock of a vector is
-- an argument in milliseconds.
--
-- Parameters. The scan of the vault, the answers of the Drive, the clock, the MD5 of a file, the date
-- parser, `should_ignore` and the path resolution of the client are arguments, collected in `World` for
-- the reconciler and in `Site` for the engine. An answer of the client in `Site` may depend on all calls
-- before it. An exception of a call is a value: the engine tells a lost token, a missing file and any
-- other exception apart.
-- Loops are recursions on the list that the source walks, except those of the Drive client above and
-- the engine's queue, which may grow while it is emptied and takes fuel: the queue's length is enough,
-- since executing adds nothing to it.
-- The 61 names of a conflict copy are counted down. The poller's interval counts 64ths of a second.
--
-- Not modelled: the interleaving of threads inside a method, JSON and YAML texts, the Drive service, the
-- OAuth exchange of `authenticate`, logging, the signal handlers and the wiring of the parts in
-- src/main.py, and run_forever.py, which starts src/main.py again whenever it ends.
pub mod Base
pub mod Vector
pub mod Codec
pub mod State
pub mod Drive
pub mod Reconcile
pub mod Intent
pub mod App
pub mod Config
pub mod Conflict
pub mod Convergence
pub mod Engine
pub mod Hash
pub mod Poller
pub mod Scripts
pub mod Trash
pub mod Vault
pub mod Watcher
