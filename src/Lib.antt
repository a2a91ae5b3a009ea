-- ===== src/Lib.antt =====
-- Harness Platform: the reliability and identity core of the gateway, in Go.
--
-- HC clients and ABA bridges are endpoints. An endpoint enrolls, holds credentials, opens a
-- WebSocket with a one-time ticket and DPoP-bound tokens, and exchanges encrypted frames in
-- sessions. The gateway keeps one live connection for each endpoint, fenced by generation; the
-- store keeps frames until they are acknowledged and replays what is missing after a reconnect.
--
-- Files, and the code under platform/internal/harness that they model:
--   Domain/Problem          domain/errors.go
--   Domain/Endpoint, Enrollment, Session, Frame, SessionRequest
--                           domain/model.go, domain/state.go: the records, and one function for
--                           each method (Fail is fail_session, Conflict is mark_conflict); `step`
--                           dispatches on the methods, `call` adds the nil receiver
--   Domain/Credential       domain/model.go, domain/m2_identity.go: records and statuses
--   Domain/KeyPackage       domain/key_package_security.go
--   Domain/ControlOutbox    domain/control_outbox.go
--   Dpop/Replay             dpop/replay.go
--   Gateway/Ranges          ackRanges (gateway/ack.go), resumeRanges (gateway/resume.go),
--                           validReplayRanges and validAckRanges (store/repository.go)
--   Gateway/Queue           gateway/connection_directory.go: enqueue, runWriter, close, and the
--                           control sequences
--   Gateway/Directory       gateway/connection_directory.go: activate, remove, withCurrent, send
--   Gateway/FrameAad        gateway/frame.go: frameAAD, validFrameRoute
--   Store/Table             what gorm's statements do with a table
--   Store/Tickets, Frames, Acks
--                           store/repository.go: tickets, PutFrame, AdvanceAck, replay
--   Domain/Id               domain/id.go: String and ParseID
--   Domain/Keys             domain/model.go: validatePublicJWK, validateJKT, Endpoint.Validate,
--                           Enrollment.Validate
--   Domain/Idempotency, Audit
--                           domain/m1_idempotency.go, domain/m1_audit.go
--   Store/Sessions          store/repository.go: CreateSession, GetSession, UpdateSession
--   Store/Enrollments       store/repository.go: CreateEnrollment, ApproveEnrollment,
--                           ConsumeEnrollment, CreateEndpoint
--   Store/Enrollments/Aba   store/aba_enrollment.go
--   Store/Idempotency, Audit
--                           store/idempotency.go, store/audit.go
--   Store/SessionRequests   store/session_create.go, store/session_close.go; `once` is the
--                           transaction that both share
--   Store/KeyPackages       store/key_package.go
--   Store/AuthorizedFrames  store/authorized_frame.go
--   Store/Revocation        store/revocation_scope.go, AuthenticateAccessToken
--                           (store/gateway_identity.go), sessions of RevokeEndpoint
--   Store/Refresh           store/refresh.go
-- Prelude holds the shared helpers, Examples the tests. The modules below a component's hold its
-- theorems. Sessions, frames and credentials of Domain are the rows of Store; the ranges of Gateway
-- are those of a cursor in Store/Acks; a connection of Gateway/Directory owns a queue of
-- Gateway/Queue.
--
-- Encodings. An identifier or a 32-byte hash is the number that its bytes spell, the zero value 0; a
-- time.Time is a number with 0 as the zero time, and a pointer to one an option; a string is the
-- list of its characters; a status type has one more constructor for any other string; a uint64
-- that the code increments wraps at 2 ^ 64. An error is kept by its code: messages and causes are
-- left out. A table is the list of its rows, a failed transaction leaves the tables as they were,
-- and a lock, on a row or a mutex, makes the locked part one step; the queue, which takes no lock,
-- is also given as a step relation in which senders, the writer and close interleave. A database
-- error (a lost connection, a full disk), a corrupt row and a cancelled context are outside.
-- No function takes fuel: every loop is over a list or a number of bytes. The compare-and-swap
-- loops are one atomic step, since a failed swap only reads again.
--
-- Parameters: `json.Valid` (Domain/Idempotency), what `json.Unmarshal` and base64 decoding answer
-- (Domain/Keys), the SHA-256 digest of a channel (Store/AuthorizedFrames), what an audit event's
-- check answers (Store/Refresh), the packet that the caller of sendNextControl builds (Gateway/Queue/Control), and the operation that withCurrent runs
-- (Gateway/Directory).
--
-- Not modelled: the HTTP and WebSocket handlers, protobuf messages, signatures and HPKE, the
-- schema, the administration module, the HC registration, the store of outbox entries, the retries after a SQLite lock, and the Rust and TypeScript parts of the repository.
pub mod Prelude
pub mod Domain
pub mod Dpop
pub mod Gateway
pub mod Store
mod Examples
