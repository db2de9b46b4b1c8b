-- ===== src/Lib.antt =====
-- opCA: the ACME broker's store, its requests and its sync with opCA, and opCA's lock and queue of
-- writes to a 1Password vault.
--
-- The parts, and the code they stand for (paths from the repository's root):
--
-- Problem: crates/opca-acme-broker/src/acme/problem.rs, the error types. A problem's detail is text for
-- a person and is left out, so that a problem is its type.
--
-- Base64url: `base64url` and `from_base64url` of crates/opca-acme-broker/src/acme/mod.rs, on lists of
-- bytes. A token, a nonce and every other text that is computed on is the list of its characters'
-- codes; a text that is only compared is a String.
--
-- Decimal: `to_string` and `parse` of the standard library for 64-bit numbers; Decimal/Signed: those of
-- an `i64`, and `trim`.
--
-- Store: crates/opca-acme-broker/src/acme/store.rs, on the tables of
-- crates/opca-acme-broker/migrations. A database is a record of tables, each the list of its rows in
-- the order of their rowids; an operation is a function from a database to an error, which leaves the
-- database as it was since the transaction rolls back, or to a value and a database.
--   Store/Status: the statuses and their texts; Store/Moves: the moves that `may_become` allows.
--   Store/Tables: the rows, the errors and the transactions.
--   Store/Lifecycle: the trait `Lifecycle`, as a record with laws that the four tables fill, and
--     `transition` on any of them.
--   Store/Accounts, Store/Orders, Store/Settle, Store/Certificates, Store/Upkeep: the operations, from
--     `create_account` to `replace_from`. `settle_order_of` and FAIL_ORDERS, which other operations end
--     with, are Store/Settle.
--   Store/Calls: the operations that change the database as one type, and what a sequence of them
--     leaves; a call that fails leaves the database unchanged. A restore (`replace_from`) is no such
--     call: what is said of any calls leaves it out, and Store/Restoring has what it keeps.
--   Store/Within, Store/Lifecycles, Store/Settled: what carries a property of single steps through
--     transactions and updates.
--   Store/Progress, Store/Healthy, Store/Revoked, Store/Revoking, Store/Restoring: the proofs. Store/Progress/Diagram
--     draws the moves of the statuses, apart from `may_become`; Store/Upkeep/Taking says what background
--     validations are for.
-- Constraints (UNIQUE, REFERENCES, CHECK) are written out where a statement of the operations can hit
-- them. Times are numbers, which compare as the stored texts do. Random bytes, the time, SQLite's
-- integrity check and the work before a restore commits are arguments. Ids, changes
-- and CRL numbers are unbounded here and an `i64` in the code. Opening and migrating the file, the decoding of rows that the store
-- did not write, the file of a snapshot and the table eab_keys, which nothing uses, are not modelled.
--
-- Nonces: `Nonces` of crates/opca-acme-broker/src/acme/request.rs. Either operation holds the lock
-- throughout, so that any interleaving of threads is a sequence of the two.
--
-- Requests: the rest of that file. The crate that parses and verifies a JWS is the record `Jose`, an
-- argument; the accounts are read from the Store's database, and the nonces are passed along.
-- Requests/Signers states who may sign under a rule, apart from the code's search for the signer.
--
-- Hosts: `check_identifier` of crates/opca-acme-broker/src/acme/issue.rs and `host_within` of
-- enrolment.rs beside it. wslib_dns and the standard library's reader of IP addresses are the record
-- `Hosts`, an argument.
--
-- Issue: `Issuer::issue` and what it calls, from a CSR that the X.509 crate has read. That signing works
-- is an argument, and so are the serial and the chain. The signer copies the names of the CSR itself
-- (`SanPolicy::Requested`); the leaf of the model is what the code then records: the order's names, a
-- common name and the validity.
--
-- Server: crates/opca-acme-broker/src/acme/server.rs, the handlers of the ACME API on all of these. A
-- handler is a function from the server's state to a refusal or an answer and a state; what it changed
-- stays changed when it refuses. Each look at the clock or the database is a moment, at which the
-- argument `World` says what time it is and which calls of the store other tasks have made since the last
-- one, so that requests interleave in every way (a restore is not among the calls); a transaction is one
-- step. The crates that read a
-- payload, a CSR, a certificate or a time are the record `Crates`, an argument. An answer is the row that
-- its JSON shows. A path's id is a number.
--   Server/Extract: `base` and `Post`; Server/Routes: the router and `stamp`.
--   Server/Accounts, Server/Ordering, Server/Challenges, Server/Certificates: the handlers, with
--     `Issuer::finalise` of issue.rs, background validations and `resume`.
--   Server/Trace: rules for what a step does to the database and when, what is known of its answer, and
--     what was met at some moment on the way.
--   Server/Owned: facts of whose a row is, which no call changes, from Store/Kept and Store/Placing.
--   Server/Allowed: what a signer is entitled to and may see, and the proofs for each handler.
--   Server/Resuming: the proof about `resume`.
--
-- Http01: `http_01` and `redirect` of crates/opca-acme-broker/src/acme/validate.rs. The network and the
-- readers of URLs and IP addresses are the record `Web`, an argument. The loop is bounded in the code,
-- by MAX_REDIRECTS; the targets that it asks come back beside its verdict. Within one run the network
-- answers the same target the same.
--
-- Sync: a page of issued certificates as `issued` of crates/opca-acme-broker/src/enrolled.rs answers it
-- from the Store's `changed_after`, and opCA's loop over the pages, `issued_since` of
-- crates/opca-core/src/services/acme_broker/mod.rs. The loop is on fuel, one unit for each page; fuel
-- above the number of certificates that wait is enough.
--
-- Mirror: opCA's table broker_certs, `broker_cursor` and `record_broker_certs` of
-- crates/opca-core/src/services/database/mod.rs, and what
-- crates/opca-core/src/services/acme_broker/mod.rs does to it: `try_sync_issued` and the row that
-- `revoke_broker_cert` records. A time is the same number in the broker's format and in OpenSSL's, so that
-- its conversion, `openssl_time`, is left out with the error of a text that it cannot read.
--
-- CaDatabase: crates/opca-core/src/services/database/mod.rs, the certificates that the CA issued as a
-- list of rows, the counters of `increment_serial`, and the sets that a scan fills.
--   CaDatabase/Standing: what `process_ca_database` finds of one certificate; CaDatabase/Processing:
--     the scan itself, its part for external certificates, and `crl_entries`.
--   CaDatabase/Spelled: what a scan makes of a certificate, by its expiry, revocation and serial, apart
--     from the code's own tests; CaDatabase/Written: that the scan does so.
--   CaDatabase/Scanning, CaDatabase/Found, CaDatabase/Sets: the proofs that CaDatabase/Settled joins;
--     CaDatabase/Listing: what the CRL then lists; CaDatabase/Again: that a second scan changes nothing;
--     CaDatabase/Serials, CaDatabase/Publishing: those of the counters and the published mark.
-- The clock, chrono's reader of OpenSSL's times and SQLite's CAST are the record `Outside`, an argument;
-- times are nanoseconds. An `i64` is the number 2 ^ 63 above it, and wraps as in a release build. A set
-- is the list of its members, in no order that a result depends on.
--
-- Vault: what opCA calls of 1Password to write, the record `Vault`, an argument; and `put_document` and
-- `put_item` of crates/opca-core/src/op.rs.
--
-- CommandQueue: crates/opca-core/src/services/command_queue.rs on that vault.
--
-- VaultLock: crates/opca-core/src/vault_lock.rs. 1Password is the record `LockVault` and chrono's
-- readers and writers of times the record `Chrono`, both arguments. VaultLock/Contest has `acquire`,
-- `contest` and `release`. Each reading of the clock in a contest is its own. That reading the vault
-- does not change it is part of `LockVault`; what other clients do meanwhile shows in the rivals that an
-- acquirer finds, which the results leave open.
--
-- Tests: databases, queues, locks and requests at which the definitions are run and the results hold.
--
-- Not modelled: HTTP and JSON themselves, the directory and the routes for nonces, the listener and TLS, X.509, dns-01 and tls-alpn-01, the
-- enrolment, the CA services and the rest of opCA's own database, storage and backup, settings, the command line,
-- the desktop application and the front ends.
pub mod Base64url
pub mod CaDatabase
pub mod CommandQueue
pub mod Decimal
pub mod Hosts
pub mod Http01
pub mod Issue
pub mod Mirror
pub mod Nonces
pub mod Prelude
pub mod Problem
pub mod Requests
pub mod Server
pub mod Store
pub mod Sync
pub mod Tests
pub mod Vault
pub mod VaultLock
