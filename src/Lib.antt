-- ===== src/Lib.antt =====
-- A model of the core of snw-agent-link: two agents pair over a tailnet, exchange signed messages
-- through a durable outbox and a gateway, hand each other files, and can cut each other off.
--
-- The parts, and how they interact. internal/model holds the records that all parts share.
-- internal/store keeps them in the tables of an SQLite database. internal/pairing takes two agents
-- through an invite, an acceptance, a confirmation and an activation receipt, each an envelope that
-- internal/identity signs; it writes requests, sessions and contacts, and on a revocation also the
-- outbox and the attachment grants of the contact. internal/admission decides on every envelope that
-- comes in, by the contact of its sender and by the replay nonces, and writes the audit.
-- internal/delivery sends the outbox messages that are due and reschedules what it could not send.
-- internal/secure seals what the store keeps. internal/gateway takes the HTTP requests of other
-- agents: it checks their contact, key, node (internal/tailscale), signature (internal/transport) and
-- nonce, hands each message to the local agent, keeps the answers, and sends ranges of the blobs that
-- internal/attachment holds to those who have a grant; the receiver of internal/attachment fetches
-- such a blob on the other side.
--
-- Which file models which part:
--   Prelude, Prelude/*    Boolean tests, the native strings as Go's, lists and integers
--   Errors                the sentinel errors of the packages, and (value, error) as a result
--   Exec                  methods that write and may fail: what was written before an error stays;
--                         `transaction` is BeginTx, Commit and the deferred Rollback
--   Time                  time.Time, and `millis` and `fromMillis` of internal/store/store.go
--   Table, Table/*        SELECT, UPDATE, DELETE, INSERT, ORDER BY and LIMIT over lists of rows
--   Model                 internal/model/types.go
--   Secure, Secure/*      internal/secure/aead.go: `Encrypt`, `Decrypt`, `gcm`
--   Store, Store/*        internal/store/store.go: a file for each group of operations, named like
--                         the methods in snake_case; the files below them hold their laws
--   Platform              what is taken from Go's standard library, as a record of functions
--   Identity              internal/identity/identity.go: `Sign`, `VerifyEnvelope`,
--                         `VerifyEnvelopeForAgent`, `Fingerprint`, `signingBytes`
--   Pairing/Payloads, Envelope, Invite, Accept, Confirm, Revoke
--                         internal/pairing/service.go: the payloads, the helpers at its end, and the
--                         operations; Pairing/Operations has them as values
--   Pairing/Guards, Writes, Guarded, Whitelist, Authentic, Activation, Cutoff
--                         the theorems on pairing
--   Admission, Admission/*
--                         internal/admission/service.go: `Authorize`
--   Delivery, Delivery/*  internal/delivery/service.go: `NewService`, `ProcessDue`, `retryDelay`;
--                         Delivery/Transport is `Deliver` of DynamicA2ATransport in
--                         internal/delivery/a2a.go; Delivery/Exchange is its `deliverA2A` and the
--                         round trippers of internal/transport/signing.go; Checked and Gate have the
--                         theorems on them
--   Capability, Capability/Laws
--                         internal/capability/capability.go: `IssueSession`, `Validate`
--   Registration, Registration/Laws
--                         internal/registration/service.go: `Register`, `Authenticate`
--   Http                  net/http: requests, responses and headers as values
--   Http/Signature        internal/transport/http_signature.go; Http/Params and Http/RoundTrip have the
--                         theorems on it
--   Http/EventStream      internal/transport/sse.go: `Sign`, `VerifySSEEvent`
--   Tailscale             internal/tailscale/whois.go: `HasAddress`, `VerifyPeer`;
--                         internal/tailscale/address.go: `ValidateBindAddress`
--   Attachment/Service    internal/attachment/service.go, on a directory of three files for a blob;
--                         Abstract is what a blob is to its users, Invariant, Outcomes, Operations,
--                         Ranges and Upload have the theorems
--   Attachment/Receiver, Attachment/Receiver/Laws
--                         internal/attachment/receiver.go: `Receive`, `validateDownloadSpec`
--   Attachment/Signature, Attachment/ByteRange
--                         internal/attachment/http_signature.go; `ParseRange` and `ContentRange`
--   Gateway/Access, Gateway/Access/*
--                         internal/gateway/router.go: `authorized`; internal/gateway/handler.go:
--                         `activeContactError`
--   Gateway/Messages, Gateway/Messages/*
--                         internal/gateway/router.go: `serveA2AWithDedup` and its helpers
--   Gateway/Forward, Gateway/Forward/Laws
--                         internal/gateway/forward.go: `newForwardingHandler`, `loopbackClient`,
--                         `RoundTrip`; `a2a` of internal/gateway/router.go
--   Gateway/Blob, Gateway/Blob/*
--                         internal/gateway/blob.go
--   Tests, Tests/*        a whole handshake on a platform of small functions, and the theorems at
--                         concrete inputs
--
-- Conventions. A time is a count of nanoseconds since the zero time of Go, never before it; the
-- tables round to milliseconds. Differences of times in the source are written with the subtrahend
-- on the other side. Strings and byte slices are native strings with a character for each byte. The
-- readings of the clock and of time.Now(), UUIDs, nonces and random secrets are arguments. A loop
-- over a list is a recursion on it. Two have fuel: the loop of the receiver, with the size of the
-- blob, since a round that goes on receives a byte or more; and the call of `serveA2AWithDedup` by
-- itself, for which one turn is enough where the record of the message can be opened. The bodies of
-- requests and responses are read already. The column for attempts is a
-- natural number. The conversion of a base delay to a float64 rounds to 53 bits, and what a
-- conversion out of the range of an int64 gives is a case of its own for each of the two processors.
-- The A2A client library is taken to send one request for a message, by the transport it is given.
--
-- Not modelled: failures of SQLite other than the violation of a key, concurrent transactions (each
-- operation is a step of its own), the text of the SQL, goroutines, sockets, TLS, JSON decoding, key
-- files, failures of file operations on files that are there, the agent card and the conversion of
-- requests by the A2A library, the frames of event streams, the signed challenges of
-- capabilities, the management interface, the commands, and the adapters in other languages.

pub mod Prelude
pub mod Errors
pub mod Exec
pub mod Time
pub mod Table
pub mod Model
pub mod Secure
pub mod Store
pub mod Platform
pub mod Identity
pub mod Pairing
pub mod Admission
pub mod Delivery
pub mod Capability
pub mod Registration
pub mod Http
pub mod Tailscale
pub mod Attachment
pub mod Gateway
pub mod Tests
