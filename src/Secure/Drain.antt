-- ===== src/Secure/Drain.antt =====
-- The loops of `drain` of src/secure/transport.rs end by themselves.
use hacp.Common.{
  ℕ, zero, suc, ◌+◌, ◌≤◌, ◌<◌, String, ◌≡◌, refl, subst, sym, ◌∙◌, some, List, [], ◌∷◌, length,
  lookup, insert, lookup-insert, arith, eq_refl, if◌then◌else◌, leb, on_bool, on_if, on_option,
  on_result, Option-cases, inl, inr,
}
use hacp.Secure.Wire.{SecureEnvelope}
use hacp.Secure.Manager.{Libraries}
use hacp.Secure.Messages.{open_authenticated}
use hacp.Secure.View.{ContractView, check}
use hacp.Secure.Window.{
  Window, Receiver, Progress, ready, returned, exhausted, next, held_get, held_remove,
  is_authenticated, is_pending, contradiction,
}
use hacp.Secure.Loops.{authenticate, deliver, drain, drain_fuel, and_then}

-- The loop has ended by a branch of the code.
abbrev pub HasEnded : Progress → Type 0
HasEnded (ready r) = Unit
HasEnded (returned r) = Unit
HasEnded (exhausted r) = ⊥

-- The held envelopes from a number on.
abbrev ahead : ℕ → List (ℕ × SecureEnvelope) → ℕ
ahead low [] = 0
ahead low ((k, e) ∷ held) = let rest = ahead low held in if leb low k then suc rest else rest

ahead-le-length : (low : ℕ) (held : List (ℕ × SecureEnvelope)) → ahead low held ≤ length held
ahead-le-length low [] = omega arith
ahead-le-length low ((k, e) ∷ held) = ground (arith, ahead-le-length low held)

ahead_next : (low : ℕ) (held : List (ℕ × SecureEnvelope)) → ahead (low + 1) held ≤ ahead low held
ahead_next low [] = omega arith
ahead_next low ((k, e) ∷ held) = ground (arith, ahead_next low held)

ahead_lt :
    (low : ℕ) (held : List (ℕ × SecureEnvelope)) (env : SecureEnvelope)
    → held_get low held ≡ some env
    → ahead (low + 1) held < ahead low held
ahead_lt low [] env h = absurd (cc h)
ahead_lt low ((k, e) ∷ held) env h = ground (arith, ahead_lt low held env, ahead_next low held)

length-held_remove_le :
    (n : ℕ) (held : List (ℕ × SecureEnvelope)) → length (held_remove n held) ≤ length held
length-held_remove_le n [] = omega arith
length-held_remove_le n ((k, e) ∷ held) = ground (arith, length-held_remove_le n held)

length-held_remove :
    (n : ℕ) (held : List (ℕ × SecureEnvelope)) (env : SecureEnvelope)
    → held_get n held ≡ some env
    → length (held_remove n held) < length held
length-held_remove n [] env h = absurd (cc h)
length-held_remove n ((k, e) ∷ held) env h =
    ground (arith, length-held_remove n held env, length-held_remove_le n held)

set_here :
    (sid : String) (v w : Window) (windows : List (String × Window))
    → lookup sid (insert sid v windows) ≡ some w
    → v ≡ w
set_here sid v w windows h =
    let here : lookup sid (insert sid v windows) ≡ some v =
      lookup-insert sid sid v windows ∙ ground (arith, eq_refl sid) in
    ground (arith, sym here ∙ h)

module _ (lib : Libraries) (sid : String) (view : ContractView) where
  authenticate-HasEnded :
      (fuel : ℕ) (r : Receiver)
      → ((w : Window) → lookup sid r.windows ≡ some w → ahead (next w) w.held ≤ fuel)
      → HasEnded (authenticate lib (suc fuel) r sid view)
  unfolding authenticate
  authenticate-HasEnded zero r enough =
      on_option HasEnded (lookup sid r.windows) _ _ (λ h. tt)
        (λ w found.
          on_option HasEnded (held_get (next w) w.held) _ _ (λ h. tt)
            (λ env h. absurd (omega (arith, enough w found, ahead_lt (next w) w.held env h))))
  authenticate-HasEnded (suc fuel) r enough =
      on_option HasEnded (lookup sid r.windows) _ _ (λ h. tt)
        (λ w found.
          on_option HasEnded (held_get (next w) w.held) _ _ (λ h. tt)
            (λ env h.
              on_result HasEnded (open_authenticated lib r.manager env).1 _ _ (λ e bad. tt)
                (λ text good.
                  on_option HasEnded (contradiction (check lib.canon view env.contract)) _ _
                    (λ fine. authenticate-HasEnded fuel _ (λ u at.
                      let same = set_here sid (record w { high = some (next w) }) u r.windows at in
                      subst (λ (u : Window). ahead (next u) u.held ≤ fuel) same
                        (omega (arith, enough w found, ahead_lt (next w) w.held env h))))
                    (λ e bad. tt))))

  deliver-HasEnded :
      (fuel : ℕ) (r : Receiver)
      → ((w : Window) → lookup sid r.windows ≡ some w → length w.held ≤ fuel)
      → HasEnded (deliver lib (suc fuel) r sid view)
  unfolding deliver
  deliver-HasEnded zero r enough =
      on_option HasEnded (lookup sid r.windows) _ _ (λ h. tt)
        (λ w found.
          on_bool HasEnded (is_authenticated w w.delivery_next) _ _
            (λ known.
              on_option HasEnded (held_get w.delivery_next w.held) _ _ (λ h. tt)
                (λ env h.
                  absurd (
                    omega
                      (arith, enough w found, length-held_remove w.delivery_next w.held env h))))
            (λ h. tt))
  deliver-HasEnded (suc fuel) r enough =
      on_option HasEnded (lookup sid r.windows) _ _ (λ h. tt)
        (λ w found.
          on_bool HasEnded (is_authenticated w w.delivery_next) _ _
            (λ known.
              on_option HasEnded (held_get w.delivery_next w.held) _ _ (λ h. tt)
                (λ env h.
                  on_result HasEnded (check lib.canon view env.contract) _ _
                    (λ e bad. on_if HasEnded (is_pending e) _ _ (λ waits. tt) (λ ends. tt))
                    (λ _ fine.
                      on_result HasEnded (open_authenticated lib r.manager env).1 _ _ (λ e bad. tt)
                        (λ payload good. deliver-HasEnded fuel _ (λ u at.
                          let v : Window = record w {
                            held = held_remove w.delivery_next w.held;
                            delivery_next = w.delivery_next + 1;
                          } in
                          let same = set_here sid v u r.windows at in
                          subst (λ (u : Window). length u.held ≤ fuel) same
                            (omega (
                              arith,
                              enough w found,
                              length-held_remove w.delivery_next w.held env h,
                            )))))))
            (λ h. tt))

  -- The fuel of a loop, and what it is for the window.
  drain_fuel_lem :
      (r : Receiver)
      → (fuel : ℕ) × (drain_fuel lib r sid ≡ suc fuel)
        × ((w : Window) → lookup sid r.windows ≡ some w → length w.held ≤ fuel)
  drain_fuel_lem r = elim (Option-cases (lookup sid r.windows)) [
    | inl n ↦ (0, rw (n, drain_fuel) refl, λ w h. absurd (cc (n, h)))
    | inr (w, found) ↦ (
      length w.held,
      rw (found, drain_fuel) refl,
      λ u h.
          let same : w ≡ u = ground (arith, sym found ∙ h) in
          subst (λ (u : Window). length u.held ≤ length w.held) same (omega arith),
    )
  ]

  and_then-HasEnded :
      (p : Progress) (k : Receiver → Progress)
      → HasEnded p
      → ((r : Receiver) → HasEnded (k r))
      → HasEnded (and_then lib p k)
  and_then-HasEnded (ready r) k h rest = rest r
  and_then-HasEnded (returned r) k h rest = tt
  and_then-HasEnded (exhausted r) k h rest = h

  -- The loops of `drain` end by themselves: their fuel never runs out.
  pub drain-HasEnded : (r : Receiver) → HasEnded (drain lib r sid view)
  unfolding drain
  drain-HasEnded r =
      let (fuel, at, enough) = drain_fuel_lem r in
      and_then-HasEnded (authenticate lib (drain_fuel lib r sid) r sid view) _
        (subst (λ f. HasEnded (authenticate lib f r sid view)) (sym at)
          (authenticate-HasEnded fuel r
            (λ w found. omega (arith, ahead-le-length (next w) w.held, enough w found))))
        (λ moved.
          let (more, at_moved, enough_moved) = drain_fuel_lem moved in
          and_then-HasEnded (deliver lib (drain_fuel lib moved sid) moved sid view) _
            (subst (λ f. HasEnded (deliver lib f moved sid view)) (sym at_moved)
              (deliver-HasEnded more moved enough_moved))
            (λ told. tt))
