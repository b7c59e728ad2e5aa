-- ===== src/Lib.antt =====
-- FreeBox: end-to-end encrypted file storage. A client encrypts files and exchanges keys (packages/crypto);
-- a server (apps/server) keeps the ciphertext, the accounts and the public keys, and hands chunks to a
-- storage plugin. This library models the cryptographic protocols and the server's API as functions, and
-- proves properties of them.
--
-- The parts, and the files that model them:
--   * packages/crypto/src/encryption.rs is Crypto/Encryption.antt: `encrypt_chunk`, `decrypt_chunk`,
--     `encrypt_file` and `decrypt_file`, each loop a recursion on its list (`encrypt_from`, `decrypt_from`).
--   * packages/crypto/src/signal.rs is Crypto/X3dh.antt (`x3dh_initiate`, `x3dh_respond`) and
--     Crypto/Ratchet.antt (`RatchetSession` with `new`, `next_send_key`, `next_recv_key`, `seal`, and
--     `open_message` for `open`). A method on `&mut self` returns its result and the session after it.
--   * packages/crypto/src/keys.rs is Crypto/Keys.antt: key bundles, their generation and validation.
--   * apps/server/src/error.rs and packages/core/src/error.rs are Server/Error.antt: the error kinds.
--   * apps/server/src/api/files.rs is Server/Files.antt and its children: storage keys and chunk indices in
--     Files/Keys, the tables and the object store in Files/State, the three upload phases in Files/Upload
--     (`upload_init`, `upload_chunk`, `upload_complete`), metadata, chunks and the list in Files/Download,
--     deletion, trash, restoring and renaming in Files/Trash.
--   * apps/server/src/api/auth.rs is Server/Auth.antt (data and validations) and Server/Auth/Handlers.antt
--     (`register`, `login`, `get_salt`, `refresh`, `logout`, `require_auth`).
--   * apps/server/src/api/oauth.rs is Server/Oauth.antt (tables) and its children: the providers, their profiles
--     and names in Oauth/Provider, `find_or_create_user` in Oauth/Resolve, `initiate`, `link_provider` and
--     `callback` in Oauth/Flow, the lists, `unlink_provider` and the audit log in Oauth/Manage.
--   * apps/server/src/api/keys.rs is Server/KeyServer.antt.
--   * apps/server/src/rate_limit.rs is Server/RateLimit.antt, and `request_key` Server/RateLimit/Key.antt.
--   * packages/core/src/storage.rs is Storage.antt (the trait as a record of operations), and
--     plugins/storage-local/src/lib.rs is Storage/Local.antt with its life cycle in Storage/Local/Lifecycle.
--   * plugins/storage-s3/src/lib.rs is Storage/S3.antt with Storage/S3/Lifecycle, bucket.rs is
--     Storage/S3/Bucket.antt and sigv4.rs Storage/S3/Sigv4.antt.
--   * apps/server/src/config.rs is Server/Config.antt; of main.rs, `build_storage_provider` is
--     Server/Startup.antt and `purge_orphaned_uploads` Server/Purge.antt.
--   * apps/server/src/api/storage.rs is Server/Datasources.antt.
--   * packages/core/src/plugin.rs is Plugin.antt: the context and the registry.
--   * apps/cli/src/commands/upload.rs and download.rs are Client.antt (`upload_file` is the body of the loop of
--     `upload_files`) and Client/Names.antt (the loop, and a file by its name); client.rs is
--     Client/Session.antt; config.rs and commands/provider.rs are Client/Sources.antt and
--     Client/Sources/Shown.antt. Client/Sending.antt puts the server's handlers behind the client's requests.
-- Prelude.antt, Outcome.antt and Texts.antt are shared: tests and lists over the native numbers, digits,
-- `Result`, and operations on texts.
--
-- How the code is written here. A handler is a function from the state to a result and the state after it
-- (Server/Handler.antt): what was written before an error stays written, as without a transaction in the
-- code, and `transaction` takes it back where the code has one. A handler takes an oracle `io`: `io k` says
-- whether its k-th awaited call answers, and for a chunk's `put` that fails also what it leaves. The
-- database is the tables that the handlers use, with their CHECKs and keys; an id or a time is a natural
-- number. Rows of one time are listed in the order of the table. What the code draws from the clock or the
-- random generator is an argument. Two requests that interleave are the parts of a handler in the order in
-- which they run: `upload_chunk` is `probe_chunk` and `commit_chunk`. The chunk requests of one client are
-- made in order.
--
-- Code outside the repository is a parameter with the behaviour that its documentation promises: AES-GCM
-- (Crypto/Aead.antt), Ed25519 and X25519 (Crypto/Curves.antt), BLAKE3 key derivation (`Kdf`), argon2 and
-- jsonwebtoken (`Services`), the text of a UUID (`UuidText`, `UuidCodec`), and for OAuth the configuration,
-- the crates oauth2 and jsonwebtoken and the replies of the providers (`Oauth`, `Web`). OpenDAL is
-- `Operator`, and `IsHealthy` an ideal disk on which every call answers and every path is a name of its own
-- (no path is a directory of another, none is written in two ways); the operating
-- system at a root directory is `Machine`, what OpenDAL builds for a bucket `Cloud`, the URL parser and the
-- HTTP client of the S3 plugin `Web`, and its digests `Digests`. A purge has the answers of the database and
-- of the storage provider in `Services` of Server/Purge.antt. The client's configuration file has the format
-- `Toml`. The client's base64, JSON and BLAKE3 are `Codecs`. Crypto/Toy.antt,
-- Server/Auth/Toy.antt and the Tests modules give concrete ones, which meet the laws.
--
-- Bounds. The casts to `i32` and the CHECKs of the tables are written out, and so are the `u32` of a chunk
-- index, the body limit of 32 MiB, the chunk size of 4 MiB and the chain limit of 1,000,000. The index of a
-- chunk in a nonce is 64 bits wide. The only fuel is that of `chunks_within`, `trim_rounds` and
-- `parse_rounds`, one round for each byte, where a round takes at least one byte. Expiry times are assumed
-- not to overflow 64 bits.
--
-- Not modelled: message texts and logging; events, which the server only has as `NoopEventBus`; the session
-- file and the remaining commands of the command line client; the database's connection, the listener, the
-- hourly timer, the signals and the table of routes; the web client; the password derivation of keys.rs,
-- which only calls argon2 and BLAKE3.
pub mod Client
pub mod Crypto
pub mod Outcome
pub mod Plugin
pub mod Prelude
pub mod Server
pub mod Storage
pub mod Texts
