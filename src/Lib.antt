-- ===== src/Lib.antt =====
-- ZSEC Shield, modelled and verified: the signed rule feed, the scanner, the encrypted quarantine and
-- the foreground protection watcher.
--
-- The program is a file scanner that a user runs by hand or keeps running as a watcher. It takes its
-- rules from a feed that is signed with Ed25519 (src/zsec_shield/feed.py): a trusted keyring is read,
-- a document is verified and installed beside a rollback state, and a scan reads the pair back. The
-- scanner (src/zsec_shield/scanner.py) walks the roots without following links, reads each file once in
-- bounded chunks or hands it to a worker process, and reports the rules that match. What matched can be
-- put under quarantine (src/zsec_shield/quarantine.py): it is encrypted under a key that the vault
-- (src/zsec_shield/crypto_vault.py) wraps, published with signed metadata, and only then removed. The
-- watcher (src/zsec_shield/watcher.py) puts the events of the file system into a bounded queue, hands
-- the paths that are due to the scanner, quarantines what matched, and reports whether the session
-- covered everything that it was asked to protect.
--
-- Files and what they model:
--   Prelude: shared names, lists, texts as code points, dictionaries as association lists with one
--     entry for a key, a stable sort, and the result type of code that raises.
--   Host: what is used of pathlib and os.path, as a record of functions.
--   Json, Json/Strict: JSON values; `_reject_duplicate_keys` and `strict_json_loads` of
--     src/zsec_shield/util.py over parameters for UTF-8 and the json parser.
--   Models: src/zsec_shield/models.py and `highest_severity` of src/zsec_shield/rules.py.
--   Feed: the helpers of feed.py. Feed/Keyring: `load_keyring`. Feed/Records: `_validate_rule`.
--     Feed/Verify: `verify_feed_document`, cut into the envelope and the payload. Feed/Install:
--     `_read_state`, `inspect_feed` and `install_feed` over a store of two files, whose two writes are
--     two functions, each with the ways an atomic write can end. Feed/Trust, Payload, Once, Rollback and Reload hold the proofs.
--   Watch/Queue: `DebouncedPathQueue`. Watch/Queue/Step: its runs as a step relation, a step for
--     each critical section of a thread and for the passing of time. The other children hold proofs.
--   Watch/Config: `WatchConfig` and `normalize_watch_roots`. Watch/State: the state, the records and
--     the health issues of `ForegroundProtectionWatcher`. Watch/Scan: `_scan_paths`. Watch/Pending:
--     `_scan_pending`. Watch/Observer: the event handler and `_start_observer`. Watch/Health: the
--     health checks and the end of `run`. Watch/Reconcile: `_reconcile` with its callbacks.
--     Watch/Honesty, Outcomes, Closing, Visits and Recovery hold proofs.
--   Scanner: `Scanner.__init__`. Scanner/Stream: the loop that reads and matches. Scanner/File: the
--     rest of `_scan_file`. Scanner/Walk: `_sorted_directory_entries`, `_is_excluded` and
--     `_iter_regular_files`, whose `yield` is a call of its consumer. Scanner/Run: `scan`. Scanner/Content,
--     Detection, Accounting, Findings, Visits, Identities, Termination, Soundness, Report and Completion
--     hold proofs.
--   Vault: envelopes and the MAC of metadata of crypto_vault.py. Vault/Device: `load_device_root`.
--     Vault/Lookup and Opening hold proofs.
--   Quarantine: snapshots, the encryption of a source, metadata, and the state: the published entries and
--     the user's files. Quarantine/Moving: `quarantine_finding`. Quarantine/Reading: `_read_metadata` and
--     `_decrypt_content`. Quarantine/Restore: `restore_entry`. Quarantine/Listing: `list_entries`.
--     Quarantine/Opening, Copies, Recovery, Overwrite, Acceptance, Finishing and Roundtrip hold proofs.
--   Status: src/zsec_shield/status_store.py. Status/Outcome holds its proofs.
--   Zba, Zba/Sealing: src/zsec_shield/zba.py, the sealed record beside a quarantined object.
--
-- Bounds: numbers are natural numbers; durations of the watcher are milliseconds and points of time of
-- the feed are microseconds. Two loops take fuel: the printing of a number, whose fuel is one more than
-- the number and so at least its count of digits, and the walk of the scanner, for which the number of
-- the file system's identities times the width of a listing, and one, is enough.
--
-- An exception that the code does not catch is an `err` of its own where the function returns a result, and the
-- flag `raised` of the scanner's Pass and of Watcher, after which nothing is visited or recorded.
--
-- Parameters: the json, base64, hashlib, hmac, datetime, uuid and cryptography modules and DPAPI (the
-- records Decoder, Codec, Primitives, Digests, Crypto and Tools), paths (Host), what the file system
-- answers to the scanner (Machine and Files, where an answer may change from one directory to the next),
-- what the operating system answers to one quarantine or restore (Answers and RestoreAnswers), and the
-- run of the scanner and of a quarantine inside a watch batch (World and ScanRun). Not modelled: the
-- worker process and the content inspection, the temporary files of the quarantine,
-- the ValueError of `canonical_json_bytes` outside feed.py, threat intelligence, updates, evidence files, fetching a feed over HTTPS, locks and atomic
-- file replacement, threads below the level of a critical section, the main loop of `run`, the command
-- line, the desktop application, the browsers, packaging.
pub mod Prelude
pub mod Host
pub mod Json
pub mod Models
pub mod Feed
pub mod Watch
pub mod Scanner
pub mod Zba
mod Tests
pub mod Vault
pub mod Quarantine
pub mod Status
