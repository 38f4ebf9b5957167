-- ===== src/Lib.antt =====
-- PCOS, a self-hosted personal cloud: a Rust backend (backend/crates) of services over PostgreSQL and
-- a file store, and a Rust agent (agent/src) that runs on the user's devices. Clients reach the
-- backend with tokens of the auth crate, put files into it in chunks (file_metadata) and pass them on
-- by links (sharing); the agent cuts files into chunks by their contents, compares them with what the
-- server has, keeps transfers for later while it is offline, and serves the files of its device to
-- remote clients through a tunnel, within a policy on roots.
--
-- Files, with what they model:
--   Prelude: the shared names, tests on numbers, lists, texts (Unicode code points, `str` operations,
--     UTF-8) and members of lists.
--   Common: AppError with its response (common/src/error.rs), AppResult with `?` as >>=, the checks of
--     common/src/auth/validation.rs, the tokens of common/src/auth/jwt.rs, and SHA-256 as the interface
--     Hasher, which streaming and one-shot hashing share.
--   Agent.Base64 (the codec of agent/src/fs_handler.rs), Agent.Jail (its `safe_resolve`, with
--     Agent.Jail.Disk: a disk as paths with their objects, Agent.Jail.Operations: read_chunk,
--     write_chunk, delete, mkdir, and Agent.Jail.Listing: list_dir, stat, guess_mime_type), Agent.Delta
--     (agent/src/delta.rs), Agent.Queue (agent/src/queue.rs) and Agent.Tunnel (the policy of
--     `handle_fs_command` of agent/src/connection_manager.rs, and in Agent.Tunnel.Commands its dispatch of a
--     request to the operations of the jail).
--   Files.Storage (file_metadata/src/storage.rs: chunks and their assembly) and Files.Resumable
--     (file_metadata/src/resumable.rs: init_transfer, write_chunk, get_status, finalize_transfer; and
--     check_storage_quota of service.rs), whose state is a Server: rows, quotas and a Disk; Files.Table (the
--     table file_entries with its constraints, from migrations/20240101000005_file_entries.sql) and
--     Files.Service with Files.Service.Trash (file_metadata/src/service.rs: folders, uploads, downloads,
--     rename, move, the trash, statistics), whose state is a Store: rows, quotas and a Disk; and
--     Files.Placement (file_metadata/src/policy.rs: evaluate_placement and evaluate_storage, and in
--     Files.Placement.Policies the policies that users keep).
--   Sharing (sharing/src/service.rs: create, list, get, update, delete, access and download) and
--     Sharing.Handlers (sharing/src/handlers.rs: the public download and upload).
--   Auth (the tables), Auth.Service (auth/src/service.rs: register, login, refresh, logout), Auth.Mfa
--     (auth/src/mfa.rs) and Auth.Recovery (auth/src/recovery.rs).
--   SyncEngine (sync_engine/src/service.rs and the messages of the socket in handlers.rs, with the tables of
--     migrations/20240101000007_remaining_tables.sql).
--   User.Family (user/src/family.rs: the clouds of families and their members).
--   Gateway.Cluster (gateway/src/cluster.rs: get_cluster_status, update_cluster_mode and rebalance_cluster,
--     with the tables of migrations/20240101000012_family_policies_and_cluster.sql).
-- The paths of crates are below backend/crates. Each component has its definitions in the file of its
-- name and its proofs and tests in the files below it.
--
-- How the code is modelled: a handler is a function from the request and the state to its result and
-- the next state; `?` is >>= of AppResult; a query is a function on the list that stands for the table. Identifiers, times and random bytes are arguments. The crates (sha2, sha1_smol, argon2,
-- base64, uuid, jsonwebtoken) and the case tables of Unicode are arguments or fields of records, with the
-- laws that are used of them as fields or hypotheses. Machine integers wrap as written: the u32 and
-- u64 buffers of base64, base32 and the recovery words, the rolling hash, the i32 number of a chunk and
-- count of chunks, the i64 sum of the quota; counts of downloads stay below 2^31, which the database enforces.
--
-- Where two modules model one table, Files.Resumable and Files.Service, each has the columns it uses.
--
-- Fuel: the chunking loop of Agent.Delta runs on fuel that its theorem shows to be enough;
-- `trim_start_matches` takes the text's length, since each turn shortens the text, and the loops
-- that take bits out of a buffer take the number of the bits, since each turn takes at least one. The
-- resolution of a path follows at most 40 links, as the operating system does. The recursive queries and the
-- breadcrumb of Files.Service run a given number of rounds; without cycles the depth of the tree is enough,
-- and with one no number is.
--
-- Failures of the database that are modelled: statements that do not fit their table, the column `is_favorite` that
-- the transfers name and the migrations do not make, a count of the users and a second factor that cannot be
-- read (Auth.Service), and the queries of `sync_status`; other queries succeed.
--
-- Not modelled: HTTP, JSON, logging and the wiring of routes; other failures of the database and of the file
-- system; devices, backups, streaming, the local server
-- of the agent and WebDAV; the token of a socket of synchronisation; the
-- measured times of the cluster, with the export and the audit of licences; and the parts of the
-- repository in other languages.
pub mod Prelude
pub mod Agent
pub mod Common
pub mod Files
pub mod Sharing
pub mod SyncEngine
pub mod Auth
pub mod Gateway
pub mod User
