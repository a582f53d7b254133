-- ===== src/Lib.antt =====
-- Relayswarm's JavaScript library, modelled part by part.
--
-- Relayswarm shares the segments of a live stream between viewers. A native peer asks another one for
-- an authorised object over a byte stream (src/object-transfer.mjs); two browsers share segments over
-- a WebRTC data channel (src/browser/peer-link.mjs). The parts and their files:
--
-- * Transfer is src/object-transfer.mjs. Transfer/Frame has the constants, `encodeFrame` and the head
--   of the stream (`next_frame`); Transfer/Decode has `decodeFrames`; Transfer/Identity has
--   `validateObjectIdentity` and what a peer's JSON claims. Transfer/Serve has `readFirstFrame`,
--   `serveAuthorizedObject` and the request that `requestObject` writes; Transfer/Receive has
--   `receiveObject`, whose closure is the record `Receiver`, its promise the type `Status`, and each
--   listener a case of `on_event`. A stream is the list of the events or the chunks that it brings.
-- * Link is src/browser/peer-link.mjs. Link/State has the fields of `PeerLink` as the record `Link`,
--   the constructor, `close`, `#sendText` and the settling of a request; Link/Request has `request`,
--   its abandonment by a timer or a signal, and the drain timer; Link/Download has binary frames,
--   `meta`, `eof` and `none`; Link/Advice has `contribution`, `fetching` and `have`; Link/Uploads has
--   `want`, `cancel` and the chain `serving`, cut at its awaits into turns; Link/Messages has the
--   dispatch of `#onMessage`, and `step` and `run` over every event that can reach a link, each with
--   the time `Date.now()` of its handling. What is sent is appended to `outbox`; what the
--   promise of a request that was sent resolves with is appended to `resolved`, and `refused` counts
--   the requests whose promises resolve with null at once.
-- * Budget is demo/upload-budget.mjs, the upload allowance that the tabs of an origin share. Budget/
--   Ledger has the stored record, the closure of one tab as the record `Tab`, and `transaction`,
--   `setLimit`, `reserve`, `reset` and `snapshot`; Budget/Tabs has several tabs over one storage, each
--   action at the moment at which it holds the exclusive lock.
-- * Neighbours is src/browser/neighbour-discovery.mjs. Neighbours/State has the fields of
--   `NeighbourDiscovery`, where a context, a window and an attempt are objects with a number, and a
--   reference to one is that number; Neighbours/Candidates has `hint` and `hinted`; Neighbours/Contexts
--   has `context`, `demand` and `current`; Neighbours/Holders has `holderMiss`, `holderDelivered`,
--   `stale`, `forget`, `rearm` and `verified`; Neighbours/Window has `choose`, Neighbours/Attempts
--   `begin` and what becomes of the attempt; Neighbours/Calls has those calls in any order.
-- * Accounts is src/account-upload-budget.mjs, the server's ledger of upload by account. Accounts/State
--   has its rows and an operation as an action on a copy of the state; Accounts/Canonical has
--   `canonical`, Accounts/Validity `validate`, Accounts/Grants `prune`, `snapshot`, `grant` and `issue`,
--   Accounts/Requests `reserve`, `renew`, `inspectGrant` and `revokeGrant`, Accounts/Authorise
--   `authorize`, and Accounts/Drain one batch of `drain`, with the outcome of its durable write.
-- * Relay is src/relay-session.mjs, by which viewers find each other. Relay/Events has events, their
--   tags and the tests on tokens; Relay/Pool/Frames what a relay sends, Relay/Pool/State and
--   Relay/Pool/Calls `RelayPool` with each operation as a function into its outcome, the new pool and
--   its effects outside, and Relay/Pool/Runs a history of calls and of what the sockets report. Relay/Session/State has the
--   fields of `RelaySwarmSession`, Session/Keys `conversationKey`, Session/Sending `sendSignal` and
--   `announcePresence`, Session/Receiving `receive`, Session/Start `start` and `close`, which act
--   on the pool, and Session/Waits `#wait`. Relay/Pool/Dialling and Relay/Pool/Listeners are the dials
--   with their timeouts, the retries and the promise of `connect`.
-- * Flow is src/browser/verified-piece-flow.mjs, which measures the rate of a transfer: Flow/Batch has
--   `VerifiedPieceFlow`, and Flow/Rates its calls in any order.
-- * Pacing is src/browser/upload-pacing.mjs, where requests wait for the upload bucket: Pacing/Pacer has
--   the closure of `createUploadPacer` as a record and each call as a function, Pacing/Calls the calls
--   in any order.
-- * Origin is src/browser/origin-range.mjs, pieces of a segment by HTTP Range: Origin/Range has
--   `originRangeFor`, `matchingContentRange` and `fetchOriginRange` with the response as an argument.
-- * Bounded is src/browser/bounded-operation.mjs: Bounded/Promise has the promise of `boundedOperation`
--   and what may happen to it.
-- * Base has what they share: Boolean tests and the conditional, lists measured by native numbers,
--   texts as lists of code units, JavaScript's Map as a list of entries in insertion order.
--
-- Fuel. `drain_with` and `loop_with` take a whole frame, eight bytes at least, off the pending bytes
-- in each round, so the length of those bytes is fuel enough; `object_chunks_with` takes at least one
-- byte in each round; `canonical_with` visits another account in each round. The lemmas of
-- Decode/Laws, Receive/Loop and Serve/Pieces show that more fuel changes nothing; `canonical_with`
-- without fuel has no result, and Canonical/Laws shows that it is not reached.
--
-- Numbers. Bytes and sizes are natural numbers; an id that a peer sends is an integer. A JSON value
-- of another type than the code accepts is `none`. Every number that the code adds stays far below
-- 2^53, above which JavaScript's would round.
--
-- Not modelled. SHA-256 and JSON are the fields of `Runtime`, nostr-tools the fields of `Nostr` and
-- `Outside`, the host's resolver is a function, and a theorem that needs more of them says so in its
-- hypotheses. Left out are callbacks that only report (`onResult`, `onScheduleChange` and such),
-- reports (`snapshot`, `clockDiagnostics`), timings for statistics, and the removal of listeners. The swarm itself (src/browser/hls-swarm.mjs),
-- the other discovery modules, the publisher, the native transport, the rest of the demo and the Rust
-- core are not part of this library.
mod Base
pub mod Transfer
pub mod Link
pub mod Budget
pub mod Neighbours
pub mod Accounts
pub mod Relay
pub mod Flow
pub mod Pacing
pub mod Origin
pub mod Bounded
