-- ===== src/Lib.antt =====
-- Teecryptor: a service that decrypts FHE ciphertexts for clients, in a confidential virtual machine.
--
-- A request names a ciphertext by its handle. The service checks that the caller may read it (an
-- access control permission, ACP, or public allowance, both decided by the chain's TaskManager),
-- reads the on-chain commitment of the ciphertext through a cache, fetches the stored bytes from
-- ct-server, checks that they hash to the commitment and that their type and zone are the ones in
-- the handle, decrypts them with the small LWE key, and answers the plaintext, or its sealed form,
-- with a signature. The files, by the part of the repository that each models:
--
--   Handle         src/http.rs (Handle, parse), src/cofhe_layout.rs
--   Decrypt        src/decrypt.rs (EncryptionType), src/error.rs
--   DirectDecrypt  src/direct_decrypt.rs: Mirror (the serialised structures), Block
--                  (decode_block), Radix (decode_radix), Top (decrypt_compressed); Phase has the
--                  arithmetic, BlockLaws, RadixLaws, RoundTrip and TopLaws the results
--   Commitment     src/commitment.rs: Version (parse_version, VersionStatus), Cache (the cache,
--                  fetch_commitment, refresh_commitment); History has sequences of reads
--   Permit         src/permit.rs: Acp (AcpData, TryFrom), Verify (verify_via_taskmanager,
--                  verify_publicly_allowed, verify_local), Resolve (ChainConfig::resolve)
--   CtSource       src/ct_source.rs (fetch and its bounds)
--   Keys, Seal     src/keys.rs, src/seal.rs
--   Signing        src/signing/service.rs, src/signing/signer.rs
--   Http           src/http.rs: Response (ApiVersion, RetryReason), Gates (enforce_acp,
--                  enforce_commitment, enforce_commitment_integrity), Fetch (fetch_decrypt, one
--                  function per step), Handlers and Polls (the routes), Bodies; FetchLaws,
--                  HandlerLaws, Wire and Polls/Laws have the results
--                  Answered is about the verdict of the TaskManager;
--                  Served states what fetch_decrypt promises, Refine and Promise are about it;
--                  Decision, Agree and AgreeHandlers compare the two generations of the API
--   Gate           src/cpu.rs (run_gated) and the admission of src/http.rs: steps of requests that
--                  run side by side
--   Boot           src/env_policy.rs (Policy), src/main.rs (Config: Config::from_env and its
--                  parsers; Start: main, load_keys), src/boot.rs, src/key_source.rs, the builders of
--                  AppState in src/http.rs; GateLaws, ConfigLaws, StartLaws, PanicLaws the results
--   Metrics        src/metrics/otlp_split.rs: Split (split_request); Rows is the view of an export
--                  as its points, Shells, Piece and SplitLaws the results; src/metrics/health.rs and
--                  a round of probe_dependencies of src/main.rs: Health, with HealthLaws; the labels
--                  of src/metrics/decrypt.rs and src/metrics/http.rs and track_metrics of
--                  src/http.rs: Labels, with LabelLaws
--   External       the third-party crates as records of operations with their documented laws, and
--                  instances of them for the tests
--   Prelude        byte strings, results, lists and words
--
-- Strings are the lists of their bytes. A 256-bit integer or a machine word is the natural number
-- that it stands for, with the wrap-around of `u64` arithmetic written out. A handler is a function
-- of the request, of the surroundings of the request (record World: what the contracts, the
-- registry and ct-server answer, the free admission slots, a fault of the decrypt task) and of the
-- caches, which it returns changed. The steps of fetch_decrypt are chained in the order of the code;
-- the two gates both run, as `join!` does. Fuel stands in two places: the `while` of one metric in
-- split_request takes as much as the metric has points, and every turn passes at least one; a
-- 64-bit number is printed with twenty digits, which no such number exceeds. Every other loop is a
-- recursion on the list that it walks. The start is a function of its variables and of a record Host
-- of what other crates answer; the order of a map's entries is that of the list that stands for it.
--
-- Not modelled: the router and its layers, log lines, counters and exporters, the servers and the
-- timer of the probe loop, the feature mock, which are I/O, glue or left out of the production
-- build; attestation and secret retrieval, which are copied from another project; the failures of
-- the metadata and storage tokens and of the list of the partners at the start, and the panic of a
-- semaphore of more permits than tokio allows. Locks are not poisoned. Other panics of the modelled
-- code are error values or a missing result. Sums and products of machine words wrap, as a release
-- build has them.
pub mod Prelude
pub mod External
pub mod Handle
pub mod Decrypt
pub mod DirectDecrypt
pub mod Commitment
pub mod Permit
pub mod CtSource
pub mod Keys
pub mod Seal
pub mod Signing
pub mod Http
pub mod Metrics
pub mod Boot
pub mod Gate
