-- ===== src/Secure/Window.antt =====
-- The windows and reports of src/secure/transport.rs, and what ends a session.
use hacp.Common.{
  ℕ, ◌+◌, String, Bool, true, false, Option, none, some, List, [], ◌∷◌, ◌++◌, length, filter, leb,
  ltb, eqb, is_some_and, Result, ok, err, is_ok, if◌then◌else◌, lookup, insert, erase,
}
use hacp.Secure.Wire.{SecureError, contract_pending, SecureEnvelope}
use hacp.Secure.Manager.{SessionManager}
use hacp.Secure.Messages
use hacp.Secure.Messages.{info, verify_message, open_authenticated}

pub record Delivery : Type 0 where
  pub sid : String
  pub from : String
  pub contract : String
  pub seq : ℕ
  pub payload : List ℕ

pub record Held : Type 0 where
  pub sid : String
  pub seq : ℕ
  pub reason : String

pub record ReceiveReport : Type 0 where
  pub delivered : List Delivery
  pub held : List Held
  pub rejected : List SecureError
  pub aborted : Option SecureError

pub record TransportStatus : Type 0 where
  pub send_seq : ℕ
  pub recv_high : Option ℕ
  pub held : ℕ

pub record Window : Type 0 where
  pub send_seq : ℕ
  pub high : Option ℕ
  pub delivery_next : ℕ
  pub held : List (ℕ × SecureEnvelope)

-- `Window::default()` and `ReceiveReport::default()`.
abbrev pub new_window : Window
new_window = record { send_seq = 0; high = none; delivery_next = 0; held = [] }

abbrev pub new_report : ReceiveReport
new_report = record { delivered = []; held = []; rejected = []; aborted = none }

abbrev pub next : Window → ℕ
next w = elim w.high [ none ↦ 0 | some n ↦ n + 1 ]

-- The map of held envelopes, in the order of its numbers.
abbrev pub held_get : ℕ → List (ℕ × SecureEnvelope) → Option SecureEnvelope
held_get n [] = none
held_get n ((k, e) ∷ held) = if eqb n k then some e else held_get n held

abbrev pub held_insert : ℕ → SecureEnvelope → List (ℕ × SecureEnvelope) → List (ℕ × SecureEnvelope)
held_insert n e [] = (n, e) ∷ []
held_insert n e ((k, f) ∷ held) =
    if ltb n k
    then (n, e) ∷ (k, f) ∷ held
    else if eqb n k
    then (n, e) ∷ held
    else (k, f) ∷ held_insert n e held

abbrev pub held_remove : ℕ → List (ℕ × SecureEnvelope) → List (ℕ × SecureEnvelope)
held_remove n [] = []
held_remove n ((k, e) ∷ held) =
    let rest = held_remove n held in if eqb n k then rest else (k, e) ∷ rest

-- The greatest held number that is at least `low`; the numbers stand in ascending order.
abbrev pub newest_gap : ℕ → List (ℕ × SecureEnvelope) → Option ℕ
newest_gap low [] = none
newest_gap low ((k, e) ∷ held) = elim (newest_gap low held) [
  | some n ↦ some n
  | none ↦ if leb low k then some k else none
]

-- `w.high.is_some_and(|high| seq <= high)`.
abbrev pub is_authenticated : Window → ℕ → Bool
is_authenticated w seq = is_some_and (λ high. leb seq high) w.high

-- A receiver in the course of a call: the windows, the manager and the report.
pub record Receiver : Type 0 where
  pub windows : List (String × Window)
  pub manager : SessionManager
  pub report : ReceiveReport

-- A loop of `drain` goes on to the next, or `drain` returns.
pub data Progress : Type 0 where
  ready : Receiver → Progress
  returned : Receiver → Progress
  -- No answer of the code: the fuel of the model ran out.
  exhausted : Receiver → Progress

unfoldable pub status : List (String × Window) → String → TransportStatus
unfolding lookup
status windows sid = elim (lookup sid windows) [
  | none ↦ record { send_seq = 0; recv_high = none; held = 0 }
  | some w ↦ record { send_seq = w.send_seq; recv_high = w.high; held = length w.held }
]

-- `self.windows.retain`, of the windows whose session the manager has.
unfoldable pub retain : SessionManager → List (String × Window) → List (String × Window)
unfolding info
retain m windows = filter (λ (e : String × Window). is_ok (info m e.0)) windows

-- `self.windows.entry(sid).or_default()`.
unfoldable pub entry : String → List (String × Window) → Window
unfolding lookup
entry sid windows = elim (lookup sid windows) [ none ↦ new_window | some w ↦ w ]

-- `Transport::close`: the windows, and what the manager says.
unfoldable pub close :
    List (String × Window)
    → SessionManager
    → String
    → List (String × Window) × SessionManager × Result SecureError Unit
unfolding erase Messages.close
close windows m sid = let closed = Messages.close m sid in (erase sid windows, closed.0, closed.1)

unfoldable pub abort : Receiver → String → SecureError → Receiver
unfolding close
abort r sid error =
    let closed = close r.windows r.manager sid in
    record {
      windows = closed.0;
      manager = closed.1;
      report = record {
        delivered = [];
        held = [];
        rejected = r.report.rejected;
        aborted = some error;
      };
    }

-- `report.rejected.push`.
abbrev pub reject : Receiver → SecureError → Receiver
reject r e = record r { report = record r.report { rejected = r.report.rejected ++ e ∷ [] } }

-- `*w = window` behind `get_mut(sid)`.
abbrev pub set_window : Receiver → String → Window → Receiver
set_window r sid w = record r { windows = insert sid w r.windows }

abbrev pub is_pending : SecureError → Bool
is_pending contract_pending = true
is_pending _ = false

-- The error of a check that ends the session: any but `ContractPending`.
abbrev pub contradiction : Result SecureError Unit → Option SecureError
contradiction (ok _) = none
contradiction (err e) = if is_pending e then none else some e
