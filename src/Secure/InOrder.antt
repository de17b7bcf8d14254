-- ===== src/Secure/InOrder.antt =====
-- Deliveries of src/secure/transport.rs: each number once, in order, without a gap.
use hacp.Common.{
  ℕ, zero, suc, ◌+◌, String, ◌≡◌, refl, subst, sym, ◌∙◌, ap, ◌||◌, none, some, List, [], ◌∷◌,
  length, lookup, insert, ok, arith, if◌then◌else◌, u64_max, eqb, leb, ltb, is_some, is_some_and,
  on_bool, on_if, on_option, on_result,
}
use hacp.Secure.Wire.{SecureEnvelope, hold_overflow, session_exhausted, sequence_gap}
use hacp.Secure.Manager.{Libraries, SessionManager}
use hacp.Secure.Messages.{open_authenticated}
use hacp.Secure.View.{ContractView, check}
use hacp.Secure.Window.{
  Window, Receiver, Progress, ready, returned, exhausted, next, held_get, held_insert, newest_gap,
  is_authenticated, entry, retain, set_window, is_pending, contradiction, new_report,
}
use hacp.Secure.Loops.{authenticate, drain_fuel, deliver, report_held, drain, and_then, left}
use hacp.Secure.Transport.{accept, place, admitted, receive}
use hacp.Secure.Deliveries.{
  InOrder, InOrder-push, Delivers, abort-Delivers, window-Delivers, entry-insert, next_number,
}

module _ (lib : Libraries) (sid : String) (n : ℕ) (view : ContractView) where
  abbrev opened_by : Receiver → SecureEnvelope → Receiver
  opened_by r env = record r { manager = (open_authenticated lib r.manager env).0 }

  abbrev Ends : Progress → Type 0
  Ends p = Delivers sid n (left lib p)

  authenticate-Delivers :
      (fuel : ℕ) (r : Receiver) → Delivers sid n r → Ends (authenticate lib fuel r sid view)
  unfolding authenticate
  authenticate-Delivers zero r d = d
  authenticate-Delivers (suc fuel) r d =
      on_option Ends (lookup sid r.windows) _ _ (λ h. d)
        (λ w found.
          on_option Ends (held_get (next w) w.held) _ _ (λ h. d)
            (λ env h.
              on_result Ends (open_authenticated lib r.manager env).1 _ _
                (λ e bad. window-Delivers sid n _ _ r.windows refl d.in_order (d.waits w found))
                (λ text good.
                  on_option Ends (contradiction (check lib.canon view env.contract)) _ _
                    (λ fine.
                      authenticate-Delivers fuel _
                        (window-Delivers sid n _ _ r.windows refl d.in_order (d.waits w found)))
                    (λ e bad.
                      abort-Delivers sid n
                        (set_window (opened_by r env) sid (record w { high = some (next w) })) e))))

  deliver-Delivers :
      (fuel : ℕ) (r : Receiver) → Delivers sid n r → Ends (deliver lib fuel r sid view)
  unfolding deliver
  deliver-Delivers zero r d = d
  deliver-Delivers (suc fuel) r d =
      on_option Ends (lookup sid r.windows) _ _ (λ h. d)
        (λ w found.
          on_bool Ends (is_authenticated w w.delivery_next) _ _
            (λ known.
              on_option Ends (held_get w.delivery_next w.held) _ _ (λ h. d)
                (λ env h.
                  on_result Ends (check lib.canon view env.contract) _ _
                    (λ e bad.
                      on_if Ends (is_pending e) _ _ (λ waits. d) (λ ends. abort-Delivers sid n r e))
                    (λ _ fine.
                      on_result Ends (open_authenticated lib r.manager env).1 _ _
                        (λ e bad. abort-Delivers sid n (opened_by r env) e)
                        (λ payload good. deliver-Delivers fuel _ (
                          window-Delivers sid n _ _ r.windows refl
                            (InOrder-push n r.report.delivered _ d.in_order (d.waits w found))
                            (next_number r.report.delivered _ w.delivery_next n
                              (d.waits w found)))))))
            (λ h. d))

  report_held-Delivers :
      (w : Window) (held : List (ℕ × SecureEnvelope)) (r : Receiver)
      → Delivers sid n r
      → Delivers sid n (report_held lib r sid view w held)
  unfolding report_held
  report_held-Delivers w [] r d = d
  report_held-Delivers w ((seq, env) ∷ held) r d =
      on_option (Delivers sid n)
        (if is_authenticated w seq then contradiction (check lib.canon view env.contract) else none)
        _ _
        (λ fine. report_held-Delivers w held _ (record { in_order = d.in_order; waits = d.waits }))
        (λ e bad. abort-Delivers sid n r e)

  and_then-Ends :
      (p : Progress) (k : Receiver → Progress)
      → Ends p
      → ((r : Receiver) → Delivers sid n r → Ends (k r))
      → Ends (and_then lib p k)
  and_then-Ends (ready r) k d next_d = next_d r d
  and_then-Ends (returned r) k d next_d = d
  and_then-Ends (exhausted r) k d next_d = d

  drain-Delivers : (r : Receiver) → Delivers sid n r → Ends (drain lib r sid view)
  unfolding drain
  drain-Delivers r d =
      and_then-Ends (authenticate lib (drain_fuel lib r sid) r sid view) _
        (authenticate-Delivers _ r d)
        (λ moved dm.
          and_then-Ends (deliver lib (drain_fuel lib moved sid) moved sid view) _
            (deliver-Delivers _ moved dm)
            (λ told dt.
              on_option (Delivers sid n) (lookup sid told.windows) _ _ (λ h. dt)
                (λ w found. report_held-Delivers w w.held told dt)))

  accept-Delivers :
      (r : Receiver) (env : SecureEnvelope) (seq : ℕ)
      → Delivers sid n r
      → (entry sid r.windows).delivery_next ≡ n + length r.report.delivered
      → Delivers sid n (accept lib r env sid seq view)
  unfolding accept
  accept-Delivers r env seq d at =
      let raised : Window = record (entry sid r.windows) { high = some seq } in
      let moved = set_window (opened_by r env) sid raised in
      on_result (Delivers sid n) (open_authenticated lib r.manager env).1 _ _
        (λ e bad. record { in_order = d.in_order; waits = d.waits })
        (λ text good.
          on_option (Delivers sid n) (contradiction (check lib.canon view env.contract)) _ _
            (λ fine.
              on_bool (Delivers sid n) (leb 64 (length (entry sid r.windows).held)) _ _
                (λ full. abort-Delivers sid n moved hold_overflow)
                (λ room.
                  drain-Delivers
                    (set_window moved sid
                      (record raised { held = held_insert seq env (entry sid r.windows).held }))
                    (window-Delivers sid n _ _ moved.windows refl d.in_order at)))
            (λ e bad. abort-Delivers sid n moved e))

  known_next :
      (r : Receiver) (w : Window)
      → InOrder n r.report.delivered
      → w.delivery_next ≡ n + length r.report.delivered
      → (entry sid (insert sid w r.windows)).delivery_next ≡ n + length r.report.delivered
  known_next r w in_order at =
      ap (λ (u : Window). u.delivery_next) (entry-insert sid w r.windows) ∙ at

  place-Delivers :
      (r : Receiver) (env : SecureEnvelope) (seq : ℕ)
      → InOrder n r.report.delivered
      → (entry sid r.windows).delivery_next ≡ n + length r.report.delivered
      → Delivers sid n (place lib r env sid seq view)
  unfolding place
  place-Delivers r env seq in_order at =
      let w = entry sid r.windows in
      let known = set_window r sid w in
      let d : Delivers sid n known = window-Delivers sid n known w r.windows refl in_order at in
      on_bool (Delivers sid n) (is_authenticated w seq || is_some (held_get seq w.held)) _ _
        (λ again. record { in_order = d.in_order; waits = d.waits })
        (λ new.
          on_bool (Delivers sid n) (eqb seq u64_max) _ _
            (λ last. abort-Delivers sid n known session_exhausted)
            (λ room.
              on_bool (Delivers sid n) (ltb (next w) seq) _ _
                (λ ahead.
                  on_bool (Delivers sid n) (leb 64 (length w.held)) _ _
                    (λ full. abort-Delivers sid n known hold_overflow)
                    (λ fits.
                      on_bool (Delivers sid n)
                        (is_some_and (λ newest. ltb newest seq) (newest_gap (next w) w.held)) _ _
                        (λ gap. abort-Delivers sid n known sequence_gap)
                        (λ waits. window-Delivers sid n _ _ known.windows refl in_order at)))
                (λ in_place. accept-Delivers known env seq d (known_next r w in_order at))))

-- The deliveries of a received message are numbered from the number that its session waits for, one after
-- the other, and the session then waits for the number behind the last, unless it has ended.
pub receive-InOrder :
    (lib : Libraries) (windows : List (String × Window)) (m : SessionManager) (env : SecureEnvelope)
    (view : ContractView) (sid : String) (seq : ℕ)
    → admitted lib m env ≡ ok (sid, seq)
    → Delivers sid (entry sid (retain m windows)).delivery_next (receive lib windows m env view)
unfolding receive
receive-InOrder lib windows m env view sid seq h =
    let n = (entry sid (retain m windows)).delivery_next in
    let r : Receiver = record { windows = retain m windows; manager = m; report = new_report } in
    on_result (Delivers sid n) (admitted lib m env) _ _ (λ e bad. absurd (cc (h, bad)))
      (λ a good.
        let same : (sid, seq) ≡ a = ground (arith, sym h ∙ good) in
        subst (λ (a : String × ℕ). Delivers sid n (place lib r env a.0 a.1 view)) same
          (place-Delivers lib sid n view r env seq tt (omega arith)))
