-- ===== src/Secure/Loops.antt =====
-- `drain` of src/secure/transport.rs. Its loops are on fuel.
use hacp.Common.{
  ℕ, zero, suc, ◌+◌, String, true, false, none, some, List, [], ◌∷◌, ◌++◌, length, ok, err,
  if◌then◌else◌, lookup, insert,
}
use hacp.Secure.Wire.{SecureEnvelope}
use hacp.Secure.Manager.{Libraries}
use hacp.Secure.Messages.{open_authenticated}
use hacp.Secure.View.{ContractView, check}
use hacp.Secure.Window.{
  Delivery, Held, Window, next, held_get, held_remove, is_authenticated, Receiver, Progress, abort,
  reject, set_window, is_pending, contradiction, ready, returned, exhausted,
}

module _ (lib : Libraries) where
  -- The first loop of `drain`: contiguous held envelopes are authenticated.
  unfoldable pub authenticate : ℕ → Receiver → String → ContractView → Progress
  unfolding lookup insert open_authenticated check abort
  authenticate zero r sid view = exhausted r
  authenticate (suc fuel) r sid view = elim (lookup sid r.windows) [
    | none ↦ returned r
    | some w ↦ elim (held_get (next w) w.held) [
      | none ↦ ready r
      | some env ↦
          let opened = open_authenticated lib r.manager env in
          let after : Receiver = record r { manager = opened.0 } in
          elim opened.1 [
            | err e ↦
                ready (
                  reject (set_window after sid (record w { held = held_remove (next w) w.held })) e)
            | ok text ↦
                let moved = set_window after sid (record w { high = some (next w) }) in
                elim (contradiction (check lib.canon view env.contract)) [
                  | some e ↦ returned (abort moved sid e)
                  | none ↦ authenticate fuel moved sid view
                ]
          ]
    ]
  ]

  -- The second loop of `drain`: authenticated envelopes are delivered in the order of their numbers.
  unfoldable pub deliver : ℕ → Receiver → String → ContractView → Progress
  unfolding lookup insert open_authenticated check abort
  deliver zero r sid view = exhausted r
  deliver (suc fuel) r sid view = elim (lookup sid r.windows) [
    | none ↦ returned r
    | some w ↦ elim (is_authenticated w w.delivery_next) [
      | false ↦ ready r
      | true ↦ elim (held_get w.delivery_next w.held) [
        | none ↦ ready r
        | some env ↦ elim (check lib.canon view env.contract) [
          | err e ↦ if is_pending e then ready r else returned (abort r sid e)
          | ok _ ↦
              let opened = open_authenticated lib r.manager env in
              let after : Receiver = record r { manager = opened.0 } in
              elim opened.1 [
                | err e ↦ returned (abort after sid e)
                | ok payload ↦
                    let delivery : Delivery = record {
                      sid = sid;
                      from = env.from;
                      contract = env.contract;
                      seq = w.delivery_next;
                      payload = payload;
                    } in
                    let told : Receiver = record after {
                      report = record r.report { delivered = r.report.delivered ++ delivery ∷ [] };
                    } in
                    deliver fuel
                      (set_window told sid (record w {
                        held = held_remove w.delivery_next w.held;
                        delivery_next = w.delivery_next + 1;
                      }))
                      sid view
              ]
        ]
      ]
    ]
  ]

  -- The last loop of `drain`, over the envelopes that stay held.
  unfoldable pub report_held :
      Receiver → String → ContractView → Window → List (ℕ × SecureEnvelope) → Receiver
  unfolding check abort
  report_held r sid view w [] = r
  report_held r sid view w ((seq, env) ∷ held) =
      let authenticated = is_authenticated w seq in
      let waiting : Held = record {
        sid = sid;
        seq = seq;
        reason = if authenticated then "ContractPending" else "SequencePending";
      } in
      let told : Receiver = record r {
        report = record r.report { held = r.report.held ++ waiting ∷ [] };
      } in
      elim (if authenticated then contradiction (check lib.canon view env.contract) else none) [
        | some e ↦ abort r sid e
        | none ↦ report_held told sid view w held
      ]

  abbrev report_all : Receiver → String → ContractView → Receiver
  report_all r sid view = elim (lookup sid r.windows) [
    | none ↦ r
    | some w ↦ report_held r sid view w w.held
  ]

  -- Enough fuel for the loops: one more than the envelopes that are held.
  abbrev pub drain_fuel : Receiver → String → ℕ
  drain_fuel r sid = elim (lookup sid r.windows) [ none ↦ 1 | some w ↦ suc (length w.held) ]

  abbrev pub and_then : Progress → (Receiver → Progress) → Progress
  and_then (ready r) k = k r
  and_then (returned r) k = returned r
  and_then (exhausted r) k = exhausted r

  unfoldable pub drain : Receiver → String → ContractView → Progress
  unfolding authenticate deliver report_held lookup
  drain r sid view = and_then (authenticate (drain_fuel r sid) r sid view) (λ moved.
      and_then (deliver (drain_fuel moved sid) moved sid view)
        (λ told. returned (report_all told sid view)))

  -- What a call returns.
  abbrev pub left : Progress → Receiver
  left (ready r) = r
  left (returned r) = r
  left (exhausted r) = r
