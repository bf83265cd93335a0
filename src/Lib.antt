-- ===== src/Lib.antt =====
-- The Relay of herdr-dog: the gate through which a remote Core reaches local Herdr sessions.
--
-- The Core connects by QUIC and sends control frames. A SESSION_PREPARE frame mints an authority for
-- one session under a random token; a SESSION_OPEN frame consumes the token and gives a session
-- handle; a session stream then begins with a preface that names this authority in every field, and
-- only after the registry has accepted it may bytes be forwarded. Who may connect at all is decided by
-- the allowlist, which the enrolment exchange fills and which processes share in a protected file. A
-- second protected file, the issuance ledger, remembers what became of each authorization, so that a
-- Core that lost the answer can ask again. The parts and their files:
--
--   - Wire.antt and its children: src/quic_wire.rs, the frames. Control is HdqmFrame, Name is
--     SessionName with encode_session_name and decode_session_name, Session the payloads of the
--     session control frames, Hello the DeviceHelloAck, Binding the stream preface HdqsBinding, Response
--     the fixed answer HdqsResponse. Each message is a record with the source's fields; bytes are
--     numbers below 256, and a message's `encode` and `decode` are functions with the source's checks
--     in its order.
--   - Registry.antt and its children: src/session_registry.rs, SessionRegistry with one function for
--     each method. Registry.antt has the state, `new` (called create), prepare_at, open_at and
--     open_request; Registry/Calls has the methods on active and expired authorities. A method takes the
--     registry and returns the new one with its result; a method that reads the clock takes the instant.
--   - Enrollment.antt and its children: src/enrollment.rs. Enrollment.antt has the identities and
--     certificate metadata, Allowlist the AllowlistRegistry, Authority the metadata-only certificate
--     authority, Exchange the challenges and submissions of FakeRelayEnrollment, Worker the update lock.
--     Enrollment/Persistent is src/allowlist.rs, the PersistentAllowlist. Its Shared has processes
--     that each hold one, over one file, and act in any order.
--   - Issuance.antt and its children: src/issuance.rs. Issuance.antt has the records and their
--     validation, Records what an operation decides from one record, Store the operations of
--     PersistentIssuanceResults, called `find_record` and `open_store` for `find` and `open`; Events
--     has a sequence of operations on a ledger, opened and used by processes in turn, and Phases the
--     state machine of one binding of an authorization to a certificate request.
--   - Material.antt: src/material.rs, reading and writing a protected file, and the lock of
--     src/allowlist.rs, which src/issuance.rs takes in the same way.
--   - Envelope.antt and its children: the frames of src/enrollment_wire.rs (Enrollment, HDE1),
--     src/reconciliation_wire.rs (Reconciliation, HDE2), src/enrollment_v3_wire.rs (Hde3) and
--     src/bootstrap_wire.rs (Hdb1), which share one layout. Hde3 and Hdb1 have their Payloads, with
--     Results for the result of an enrolment. Fields has the hex, Base64 and chain fields
--     of payloads, Reconciliation/Payload the result of HDE2. In src/quic_server.rs only
--     tests still use HDE1 and HDE2. A stream is the bytes that are still to come.
--   - RelayError.antt: src/error.rs. Map.antt: BTreeMap as a list in key order.
--   - Prelude.antt and its children: lists measured by native numbers, byte strings and their layout in
--     fields, Result with do blocks, state with errors (Actions), orders, UTF-8.
--
-- The stores. A World is the protected file, which may be missing, and the memory of one process. An
-- operation is an action on it that returns a value or fails. What the file system answers to one
-- operation (the metadata it reports, whether a call succeeds) is an argument of type Access. A write
-- replaces the content of the file as a whole, since the source writes another file and renames it.
-- `exists` is taken to tell whether there is a file: that it is also false when the file system refuses
-- to look is not modelled.
--
-- Bounds. A number of w bits is a natural number; the overflow checks of the source are written out
-- (checked_add), the handle counter wraps at 65536. An Instant is a number of nanoseconds whose
-- additions do not overflow. allocate_handle runs its 65536 rounds by structural recursion, and the
-- rounds are enough because at most 64 of the 65535 handles are in use.
--
-- Other packages. SHA-256 is the parameter sha256, of which no property assumes anything. JSON is the
-- parameter Json, or to_vec and from_slice, of which the properties that name it assume that it reads
-- back what it writes. Base64 is a parameter that decodes what it encodes. Random tokens are arguments.
--
-- Not modelled. The conversion of errors to text, the redacted Debug output, sockets, QUIC and iroh
-- transport, PKI and X.509, key parsing, configuration, bootstrap sessions, supervision and
-- the release updater.
pub mod Prelude
pub mod Map
pub mod RelayError
pub mod Wire
pub mod Material
pub mod Issuance
pub mod Envelope
pub mod Registry
pub mod Enrollment
