-- ===== src/Secure/Received.antt =====
-- A message of src/secure/transport.rs from one end to the other, and the theorems at it.
use hacp.Common.{String, ◌≡◌, refl, none, some, [], ◌∷◌, ◌++◌, ok}
use hacp.Secure.Wire.{encode_hex, replay_rejected, SecureEnvelope, msg}
use hacp.Secure.Manager.{SessionManager}
use hacp.Secure.Handshake.{respond}
use hacp.Secure.Messages.{info, verify_message}
use hacp.Secure.View.{bootstrap, check}
use hacp.Secure.Window.{Receiver, entry, retain, abort, close}
use hacp.Secure.Loops.{drain, authenticate, deliver, report_held}
use hacp.Secure.Transport.{seal, receive, admitted, place, accept}
use hacp.Secure.Deliveries.{Delivers}
use hacp.Secure.InOrder.{receive-InOrder}
use hacp.Secure.Drain.{HasEnded, drain-HasEnded}
use hacp.Secure.Examples.{wire, lib, ann, bob, key, draw, sent, ready, manager_of, repeat}

-- What a test by `refl` has to unfold.
transport : Unit {0}
unfolding wire entry retain seal receive admitted place accept drain authenticate deliver
    report_held abort close check info verify_message
transport = tt

abbrev sid : String
sid = encode_hex (repeat 16 5)

abbrev receiver : SessionManager
receiver = (respond lib (manager_of bob) "s-1" sent key draw).0

-- The first message of `ann`.
abbrev first : SecureEnvelope
first = record {
  v = 1;
  kind = msg;
  from = ann;
  to = bob;
  contract = "";
  sid = some sid;
  seq = some 0;
  epub = none;
  nonce = none;
  sig = some (encode_hex (repeat 64 7));
  ct = some (encode_hex (repeat 16 0 ++ 1 ∷ 2 ∷ []));
  ts = none;
}

seals : (seal lib [] ready sid "" (1 ∷ 2 ∷ []) bootstrap).2 ≡ ok first
unfolding transport
seals = refl

delivers :
    (receive lib [] receiver first bootstrap).report.delivered
    ≡ (record { sid = sid; from = ann; contract = ""; seq = 0; payload = 1 ∷ 2 ∷ [] }) ∷ []
unfolding transport
delivers = refl

abbrev received : Receiver
received = receive lib [] receiver first bootstrap

delivers_once :
    (receive lib received.windows received.manager first bootstrap).report.rejected
    ≡ replay_rejected ∷ []
unfolding transport
delivers_once = refl

receive-InOrder_example :
    Delivers sid
      (entry sid (retain receiver [])).delivery_next
      (receive lib [] receiver first bootstrap)
unfolding transport
receive-InOrder_example = receive-InOrder lib [] receiver first bootstrap sid 0 refl

drain-HasEnded_example : HasEnded (drain lib received sid bootstrap)
drain-HasEnded_example = drain-HasEnded lib sid bootstrap received
