-- ===== src/Lib.antt =====
-- The core of HACP, the heterogeneous agent collaboration protocol: the Rust crate at the repository's
-- root, and of it the engines of HACP/2.0 in src/v2, the run states of HACP/1.1 in src/state.rs and the
-- encrypted sessions in src/secure.
--
-- The parts and their files:
--   Envelope       src/v2/envelope.rs: agent URNs, the registry of message kinds, and in
--                  Envelope/Message the envelope and its validation
--   Agent          src/v2/agent.rs: agents and their capabilities
--   Evidence       src/v2/evidence.rs: evidence records
--   Profile        src/v2/profile.rs: the recursive pairwise profile over the chart and the ledger
--   Session        src/v2/session.rs: the bilateral session; Session/Ops has its calls as data
--   Canon          src/v2/canon.rs: canonical JSON, digests over it, canonical timestamps
--   Artifact       src/v2/artifact.rs: the record, its checks, `derive`, `ancestry`; Artifact/Shape has
--                  the shapes of digests and ids that other modules share
--   Grant/Record   src/v2/grant.rs: a capability grant and the checks of its shape
--   Grant/Org      the organizational chart: parent chains, the lowest common supervisor
--   Grant/Ledger   the ledger of grants: issue, revoke, open, covers, preauthorizes
--   Grant/Permit   requests and permits for sessions across branches, and their admission
--   Verification   src/v2/verification.rs: verdict records, their validation, and in
--                  Verification/Closure the records that a verdict stands on
--   Interface      src/contract.rs: the interface contract of HACP/1.1, its validation, and in
--                  Interface/Buildable its check for cycles
--   Walk           the depth-first walk with colours that `ancestry`, the attestation closure and the
--                  check for cycles of interface contracts share
--   Contract       src/v2/contract.rs: the bilateral contract engine; Contract/Terms has its data,
--                  Contract/Formation `propose`, Contract/Ops the calls, Contract/Reach the contracts
--                  that calls make of a proposal
--   Escalation     src/v2/escalation.rs: the ladder of a dispute; Escalation/Ladder has its calls
--   RunState       src/state.rs: the run states of HACP/1.1 and their transitions
--   Secure         src/secure: Wire and Signing are envelope.rs, Crypto is crypto.rs, Manager, Handshake,
--                  Completion and Messages are session.rs, and View, Window, Loops and Transport are transport.rs;
--                  Secure/Calls has the manager's calls
--   Common         what the parts share: lists, sets and maps with string keys, results, texts
--
-- A session binds two agents, named by URNs, and grants observers lifecycle kinds only. The ledger
-- records grants whose timestamps `Canon` validates; an agent's authority is what the open grants
-- that it holds give it. The chart says who supervises whom. A session forms contracts; a delegation
-- needs an open grant and the grantor's chain; terms are compared and revisions sealed by `Canon`'s
-- digests; a verdict is a record that `Verification` validates. Disputes climb the chart, and a permit
-- for a session across branches rests on the chart or on the ledger.
--
-- How the code is rendered. A method with `&mut self` is a function from the state to the next state
-- and its result, so that a call that fails after a change is seen to have changed it. A `BTreeMap`
-- or `BTreeSet` is an association list or a list with one entry per key, in the order of insertion:
-- where an answer depends on the order, the model sorts by key first.
-- A Rust string is a native string of characters, whose `len` counts the bytes of UTF-8. A message built by `format!` is
-- kept as the case it reports with the values that it prints.
--
-- Code outside the repository is a parameter. `Canon.Crates` is the float test of serde_json, SHA-256,
-- and the date parser of chrono; `Secure.Crypto.Primitives` is Ed25519, X25519, HKDF and
-- ChaCha20-Poly1305; `rfc3339` is chrono's parser of RFC 3339 dates. The witnesses instantiate them by
-- simple functions. What a call draws from the random generator is its argument.
--
-- A panic of the code is the error `panics` of its model. A debug assertion of `decide_amendment` is
-- left out. Numbers of revisions wrap at 2^64, counters saturate as in the code.
--
-- Loops over parents take fuel, two more than the number of entries, and running out is the error
-- `diverges`, which no error of the code is. The files on the fuel are
-- Grant/Org/Walk, Grant/Ledger/Walk and Grant/Permit/Expiry. A depth-first walk takes one more than the
-- number of items, and Walk/Fuel shows that it is enough. The loop of `bound_pending` takes the number of
-- half-open handshakes, since each turn drops one. The loops of `drain` take one more than the number of
-- held envelopes, and Secure/Drain shows that it is enough.
--
-- Not modelled: the serde attributes, formatting and JSON schemas, the clock (`canonical_now`), the
-- guardian and the client over the transport of src/secure, the executor in infra/wasmer, the programs
-- in src/bin, and the other modules of HACP/1.1.
pub mod Common
pub mod Envelope
pub mod Session
pub mod RunState
pub mod Canon
pub mod Artifact
pub mod Interface
pub mod Grant
pub mod Verification
pub mod Contract
pub mod Escalation
pub mod Walk
pub mod Secure
pub mod Evidence
pub mod Agent
pub mod Profile
