-- ===== src/Secure/Transport.antt =====
-- `Transport` of src/secure/transport.rs: sealing, receiving and observing.
use hacp.Common.{
  ℕ, ◌+◌, String, true, false, not, ◌||◌, none, some, List, [], ◌∷◌, ◌++◌, length, leb, ltb, eqb,
  is_some, is_some_and, Result, ok, err, ◌>>=◌, ◌>>◌, fail_if, ok_or, insert, erase, u64_max,
}
use hacp.Secure.Wire.{
  SecureError, schema_violation, session_exhausted, replay_rejected, sequence_gap, hold_overflow,
  SecureEnvelope, is_msg, validate,
}
use hacp.Secure.Manager.{Libraries, SessionManager}
use hacp.Secure.Messages
use hacp.Secure.Messages.{info, verify_message, open_authenticated}
use hacp.Secure.View.{ContractView, check}
use hacp.Secure.Window.{
  Held, Window, new_report, next, held_get, held_insert, newest_gap, is_authenticated, Receiver,
  retain, entry, close, abort, reject, set_window, contradiction,
}
use hacp.Secure.Loops.{drain, left}

module _ (lib : Libraries) where
  -- `Transport::seal`.
  unfoldable pub seal :
      List (String × Window)
      → SessionManager
      → (sid contract : String) (payload : List ℕ) → ContractView
      → List (String × Window) × SessionManager × Result SecureError SecureEnvelope
  unfolding retain info check close entry insert Messages.seal
  seal windows m sid contract payload view =
      let kept = retain m windows in
      elim (info m sid) [
        | err e ↦ (kept, m, err e)
        | ok known ↦ elim (contradiction (check lib.canon view contract)) [
          | some e ↦ let closed = close kept m sid in (closed.0, closed.1, err e)
          | none ↦
              let w = entry sid kept in
              elim (eqb w.send_seq u64_max) [
                | true ↦
                    let closed = close kept m sid in (closed.0, closed.1, err session_exhausted)
                | false ↦
                    let sealed = Messages.seal lib m sid w.send_seq contract payload in
                    elim sealed.1 [
                      | err e ↦ (insert sid w kept, sealed.0, err e)
                      | ok envelope ↦ (
                        insert sid (record w { send_seq = w.send_seq + 1 }) kept,
                        sealed.0,
                        ok envelope,
                      )
                    ]
              ]
        ]
      ]

  -- The end of `receive`, for a message that is in its place: it is opened, and waits for delivery.
  unfoldable pub accept :
      Receiver → SecureEnvelope → (sid : String) (seq : ℕ) → ContractView → Receiver
  unfolding open_authenticated check abort insert drain
  accept r env sid seq view =
      let w = entry sid r.windows in
      let opened = open_authenticated lib r.manager env in
      let after : Receiver = record r { manager = opened.0 } in
      elim opened.1 [
        | err e ↦ reject after e
        | ok text ↦
            let raised : Window = record w { high = some seq } in
            let moved = set_window after sid raised in
            elim (contradiction (check lib.canon view env.contract)) [
              | some e ↦ abort moved sid e
              | none ↦ elim (leb 64 (length w.held)) [
                | true ↦ abort moved sid hold_overflow
                | false ↦ left lib (
                    drain lib
                      (set_window moved sid (record raised { held = held_insert seq env w.held }))
                      sid view)
              ]
            ]
      ]

  -- `receive` for a message whose signature is the peer's.
  unfoldable pub place :
      Receiver → SecureEnvelope → (sid : String) (seq : ℕ) → ContractView → Receiver
  unfolding abort insert accept entry
  place r env sid seq view =
      let w = entry sid r.windows in
      let known = set_window r sid w in
      elim (is_authenticated w seq || is_some (held_get seq w.held)) [
        | true ↦ reject known replay_rejected
        | false ↦ elim (eqb seq u64_max) [
          | true ↦ abort known sid session_exhausted
          | false ↦ elim (ltb (next w) seq) [
            | false ↦ accept known env sid seq view
            | true ↦ elim (leb 64 (length w.held)) [
              | true ↦ abort known sid hold_overflow
              | false ↦ elim (is_some_and (λ newest. ltb newest seq) (newest_gap (next w) w.held)) [
                | true ↦ abort known sid sequence_gap
                | false ↦
                    let waiting : Held = record {
                      sid = sid;
                      seq = seq;
                      reason = "SequencePending";
                    } in
                    let kept =
                      set_window known sid (record w { held = held_insert seq env w.held }) in
                    record kept {
                      report = record r.report { held = r.report.held ++ waiting ∷ [] };
                    }
              ]
            ]
          ]
        ]
      ]

  -- The session and the number of a message that is valid and signed by its peer.
  unfoldable pub admitted : SessionManager → SecureEnvelope → Result SecureError (String × ℕ)
  unfolding validate verify_message
  admitted m env = do
    validate lib.rfc3339 env
    fail_if (not (is_msg env.kind)) schema_violation
    sid ← ok_or env.sid schema_violation
    seq ← ok_or env.seq schema_violation
    verify_message lib m env
    ok (sid, seq)

  unfoldable pub receive :
      List (String × Window) → SessionManager → SecureEnvelope → ContractView → Receiver
  unfolding retain admitted place
  receive windows m env view =
      let r : Receiver = record { windows = retain m windows; manager = m; report = new_report } in
      elim (admitted m env) [ err e ↦ reject r e | ok (sid, seq) ↦ place r env sid seq view ]

  unfoldable pub observe :
      List (String × Window) → SessionManager → String → ContractView → Receiver
  unfolding info erase drain
  observe windows m sid view = elim (info m sid) [
    | err e ↦ reject (record { windows = erase sid windows; manager = m; report = new_report }) e
    | ok known ↦
        left lib
          (drain lib (record { windows = windows; manager = m; report = new_report }) sid view)
  ]
