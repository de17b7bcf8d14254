-- ===== src/Secure/Manager.antt =====
-- The state of `SessionManager` of src/secure/session.rs, and the bound on half-open handshakes.
use hacp.Common.{
  ℕ, zero, suc, ◌+◌, String, Bool, true, false, not, ◌&&◌, Option, none, some, List, [], ◌∷◌, ◌++◌,
  length, ltb, leb, eqb, count, remove_at, if◌then◌else◌, Result, ok, err, fail_if, ◌==◌, erase,
  filter, str_is_empty, u64_max, any,
}
use hacp.Canon.{Crates}
use hacp.Secure.Wire.{SecureError, schema_violation, session_exhausted, SecureEnvelope, urn}
use hacp.Secure.Crypto.{Primitives, IdentitySecret, EphemeralSecret, SessionKeys}

-- What the manager takes from other crates.
pub record Libraries : Type 0 where
  pub primitives : Primitives
  pub canon : Crates
  pub rfc3339 : String → Bool

pub record SessionInfo : Type 0 where
  pub sid : String
  pub peer : String
  pub local : String
  pub hacp_session : String
  pub state : String
  pub send_seq : ℕ

pub record Pending : Type 0 where
  pub hello : SecureEnvelope
  pub hacp_session : String
  pub pin : List ℕ
  pub ephemeral : EphemeralSecret
  pub order : ℕ

pub record Session : Type 0 where
  pub info : SessionInfo
  pub keys : SessionKeys
  pub pin : List ℕ
  pub initiator : Bool
  pub order : ℕ
  pub hello : SecureEnvelope
  pub ack : SecureEnvelope

pub record SessionManager : Type 0 where
  pub local : String
  pub identity : IdentitySecret
  pub pending : List Pending
  pub active : List (String × Session)
  pub seen_hellos : List (String × String)
  pub seen_hello_order : List (String × String)
  pub order : ℕ

abbrev pub seen_hello_limit : ℕ
seen_hello_limit = 1024

abbrev pub context_ok : String → Result SecureError Unit
context_ok s = fail_if (str_is_empty s) schema_violation

-- `SessionManager::with_identity`.
unfoldable pub with_identity : String → IdentitySecret → Result SecureError SessionManager
unfolding urn
with_identity local identity =
    if not (urn local)
    then err schema_violation
    else ok (record {
      local = local;
      identity = identity;
      pending = [];
      active = [];
      seen_hellos = [];
      seen_hello_order = [];
      order = 0;
    })

-- `next_order`; the counter stays where it cannot be raised.
unfoldable pub next_order : SessionManager → SessionManager × Result SecureError ℕ
next_order m =
    if eqb m.order u64_max
    then (m, err session_exhausted)
    else (record m { order = m.order + 1 }, ok (m.order + 1))

abbrev pub is_pending_for : String → Pending → Bool
is_pending_for peer p = p.hello.to == peer

abbrev pub is_ack_sent_for : String → (String × Session) → Bool
is_ack_sent_for peer entry = entry.1.info.peer == peer && entry.1.info.state == "AckSent"

-- `count` in `bound_pending`: the half-open handshakes with a peer.
abbrev pub half_open : String → SessionManager → ℕ
half_open peer m = count (is_pending_for peer) m.pending + count (is_ack_sent_for peer) m.active

-- The position and the order of the first pending handshake of the lowest order.
unfoldable pub oldest_pending : String → ℕ → List Pending → Option (ℕ × ℕ)
oldest_pending peer i [] = none
oldest_pending peer i (p ∷ ps) =
    let rest = oldest_pending peer (suc i) ps in
    if is_pending_for peer p
    then elim rest [
      | none ↦ some (i, p.order)
      | some (j, order) ↦ if leb p.order order then some (i, p.order) else some (j, order)
    ]
    else rest

-- The id and the order of the first session of the lowest order that waits for a first message.
unfoldable pub oldest_active : String → List (String × Session) → Option (String × ℕ)
oldest_active peer [] = none
oldest_active peer (e ∷ es) =
    let rest = oldest_active peer es in
    if is_ack_sent_for peer e
    then elim rest [
      | none ↦ some (e.0, e.1.order)
      | some (sid, order) ↦ if leb e.1.order order then some (e.0, e.1.order) else some (sid, order)
    ]
    else rest

abbrev pub drop_pending : ℕ → SessionManager → SessionManager
drop_pending i m = record m { pending = remove_at i m.pending }

abbrev pub drop_active : String → SessionManager → SessionManager
drop_active sid m = record m { active = erase sid m.active }

-- The body of the loop where it does not break at the first test.
unfoldable pub drop_oldest : String → SessionManager → Option SessionManager
unfolding oldest_pending oldest_active erase
drop_oldest peer m = elim (oldest_pending peer 0 m.pending) [
  | some (i, a) ↦ elim (oldest_active peer m.active) [
    | some (sid, b) ↦ if ltb a b then some (drop_pending i m) else some (drop_active sid m)
    | none ↦ some (drop_pending i m)
  ]
  | none ↦ elim (oldest_active peer m.active) [
    | some (sid, b) ↦ some (drop_active sid m)
    | none ↦ none
  ]
]

-- The loop of `bound_pending`, on fuel: each turn drops a handshake.
unfoldable pub bound_loop : ℕ → String → SessionManager → SessionManager
unfolding drop_oldest
bound_loop zero peer m = m
bound_loop (suc fuel) peer m = elim (ltb (half_open peer m) 4) [
  | true ↦ m
  | false ↦ elim (drop_oldest peer m) [ none ↦ m | some next ↦ bound_loop fuel peer next ]
]

unfoldable pub bound_pending : String → SessionManager → SessionManager
unfolding bound_loop
bound_pending peer m = bound_loop (half_open peer m) peer m

-- `seen_hellos.contains_key`.
abbrev pub is_seen : (String × String) → List (String × String) → Bool
is_seen key seen = any (λ (k : String × String). k.0 == key.0 && k.1 == key.1) seen

abbrev forget : (String × String) → List (String × String) → List (String × String)
forget key seen = filter (λ (k : String × String). not (k.0 == key.0 && k.1 == key.1)) seen

-- The loop of `remember_hello`, which ends at once where the queue is within the limit.
unfoldable pub trim :
    ℕ
    → List (String × String)
    → List (String × String)
    → List (String × String) × List (String × String)
trim zero seen order = (seen, order)
trim (suc fuel) seen [] = (seen, [])
trim (suc fuel) seen (oldest ∷ rest) = elim (ltb seen_hello_limit (length (oldest ∷ rest))) [
  | false ↦ (seen, oldest ∷ rest)
  | true ↦ trim fuel (forget oldest seen) rest
]

unfoldable pub remember_hello : String → String → SessionManager → SessionManager
unfolding trim
remember_hello hacp_session signature m =
    let key : String × String = (hacp_session, signature) in
    if is_seen key m.seen_hellos
    then m
    else let kept =
        trim (suc (length m.seen_hello_order)) (key ∷ m.seen_hellos)
          (m.seen_hello_order ++ key ∷ []) in
      record m { seen_hellos = kept.0; seen_hello_order = kept.1 }
