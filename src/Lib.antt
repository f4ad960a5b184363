-- ===== src/Lib.antt =====
-- 7h3 protocol: signed, replay-protected messages between agents (TypeScript, src/).
--
-- The parts, and the file that models each:
-- * Envelope (Envelope.antt, Envelope/): the envelope of src/protocol.ts and `validateEnvelope`.
--   `ProtocolEnvelope` and its parts are the interfaces of the same names; `validate_envelope`
--   returns the diagnostics in the source's order, one constructor for each message.
-- * Replay (Replay.antt, Replay/): src/protocolReplay.ts and src/replayStores.ts.
--   Replay/Heap is `ExpiryMinHeap` (an array with `bubbleUp` and `bubbleDown`), Replay/Cache is
--   `InMemoryReplayCache` (`prune`, `evictOne`, `consume`), Replay/Cache/Key is `makeKey` with
--   `encodeURIComponent`, Replay/Memory is `MemoryReplayStore`, and Replay/Redis is
--   `InMemoryRedisLikeClient` of src/redisClient.ts.
-- * Policy (Policy.antt, Policy/): `matchGlob` of src/routePolicy.ts as the atoms of the regular
--   expression that it builds (Policy/Glob), `matchPolicy` and `isAllowedSender` of the same file
--   (Policy/Route), and the scopes of src/capability.ts with
--   `pathGlobIsSubset` (Policy/Scope).
-- * Json (Json.antt): `stableStringify` of src/actionBinding.ts and the parts of `JSON.stringify` that
--   it calls, on values whose numbers are integers.
-- * Crypto (Crypto.antt): base64url and the Ed25519 signing functions of src/protocol.ts over the
--   record `WebCrypto` of what they call of Web Crypto and `Buffer`. A key that cannot be imported
--   is the outcome `none`. Crypto/Echo has two instances of the record for the tests.
-- * Capability (Capability.antt, Capability/): src/capability.ts but the scopes: the canonical form,
--   `issueCapabilityToken`, `delegateCapabilityToken` (an error thrown is `refused`),
--   `verifyCapabilityToken`, and `verifyCapabilityChain` with the body of its loop in the functions
--   `check_token`, `check_position`, `check_link` and `check_signature`.
-- * RateLimit (RateLimit.antt, RateLimit/): `SlidingWindowRateLimiter` of src/rateLimiter.ts, with
--   `consume` split into the window of the key (`window_step`) and the map (`store`, `make_room`).
-- * Action and Approval (Action.antt, Approval.antt, Approval/): `bindAction` and its companions of
--   src/actionBinding.ts, and `issueApproval` and `verifyApproval` of src/approval.ts. The replay
--   store is a record of its own, Replay/Store, with `MemoryReplayStore` as one instance.
-- * Audit (Audit.antt, Audit/): `InMemoryAuditLog` and `verifyAuditChain` of src/auditLog.ts. `query`
--   keeps what `slice` does for a limit of 0. `log` is split at its two suspensions: `log_event`
--   is a call that no other call of `log` overlaps, and Audit/Overlap has two calls that overlap.
-- * Gateway (Gateway.antt, Gateway/): `normalizeGatewayPath` and `verify` of src/gateway.ts
--   (Gateway/Path, Gateway/Verify), with `decodeURIComponent` as a parameter. What `verify` calls to
--   authenticate a request is a record of operations (`Authentication`), except for the capability
--   chain, the rate limiter and the approval, which are the definitions of Capability, RateLimit and
--   Approval. A refusal keeps its reason, which determines the status.
-- * Mandate (Mandate.antt, Mandate/): `isMoney`, `isPositive` and `checkedTotal` (Mandate/Money),
--   `MemorySpendLedger` (Mandate/Ledger), the three documents (Mandate/Document), their issuing
--   (Mandate/Issue) and `verifyPayment` (its checks in Mandate/Check, one function for each block of
--   the source; the ledger and the approval in Mandate/Payment) of src/mandate.ts. An amount is the
--   natural number that passes the test; the error that `reserve` throws is the outcome `none`.
-- * Keys (Keys.antt, Keys/): `RollingKeyring` of src/keyRotation.ts (Keys/Ring) and
--   `InMemoryRevocationStore` of src/revocation.ts (Keys/Revocation).
-- * Stream (Stream.antt, Stream/): `SignedStreamReader` and `verifyStream` of src/stream.ts, over
--   the record `WebCrypto`.
--
-- An envelope is validated, its key is consumed in a replay cache, and a route policy or capability
-- scope is matched against the path of the request.
--
-- How state and values are modelled. A method that changes `this` returns the new record; the clock
-- is an argument, as `nowMs` is. A timestamp is an integer of any sign (`ℤ`), or a `Number` where the
-- source tests `Number.isFinite`: an integer or a non-finite value; fractions and the rounding of
-- doubles above 2^53 are not modelled. A text is a list of code points (Envelope, Replay, Json, Crypto,
-- Capability, Action, Approval, Audit, Mandate, Stream) or of UTF-16 code units (Policy, Gateway); a
-- scope of a token and, in an approval, a path of the gateway are read both ways, which agree on
-- texts of the basic plane. JavaScript's `Map` is the list of its entries in insertion order.
-- Asynchronous methods run to their end: their bodies have no other caller between two steps, but
-- for the overlapping calls of `log` in Audit/Overlap. Of
-- `verifyPayment` only `reserve`, `release` and the check of the replay store change state, and
-- each is one step.
--
-- Loops that are not over a list take fuel, and the fuel is part of the definition: the index for
-- `bubbleUp`, the length of the array for `bubbleDown`, the size of the heap for `prune` and
-- `evictOne`, the number itself for its decimal digits. The theorems on these functions show that it
-- suffices, since they state the finished result.
--
-- Not modelled: signatures and hashes (Web Crypto), the checks of an HTTP signature, a DPoP proof and
-- the provenance of an input, transports, adapters, the command line and the other packages.
pub mod Prelude
pub mod Envelope
pub mod Replay
pub mod Json
pub mod Crypto
pub mod Policy
pub mod RateLimit
pub mod Mandate
pub mod Keys
pub mod Stream
pub mod Capability
pub mod Action
pub mod Approval
pub mod Audit
pub mod Gateway
