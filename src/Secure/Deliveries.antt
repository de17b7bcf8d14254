-- ===== src/Secure/Deliveries.antt =====
-- Reports of src/secure/transport.rs whose deliveries are in order.
use hacp.Common.{
  ℕ, ◌+◌, String, ◌≡◌, refl, sym, ◌∙◌, ap, some, List, [], ◌∷◌, ◌++◌, length, length-append, lookup,
  insert, lookup-insert, lookup-erase, arith, eq_refl,
}
use hacp.Secure.Wire.{SecureError}
use hacp.Secure.Window.{Delivery, Window, Receiver, entry, abort, close}

-- The numbers of the deliveries go up from `n`.
abbrev pub InOrder : ℕ → List Delivery → Type 0
InOrder n [] = Unit
InOrder n (d ∷ ds) = (d.seq ≡ n) × InOrder (n + 1) ds

pub InOrder-push :
    (n : ℕ) (ds : List Delivery) (d : Delivery)
    → InOrder n ds
    → d.seq ≡ n + length ds
    → InOrder n (ds ++ d ∷ [])
InOrder-push n [] d h at = (omega (arith, at), tt)
InOrder-push n (x ∷ ds) d h at = (h.0, InOrder-push (n + 1) ds d h.1 (omega (arith, at)))

-- What has been delivered starts at `n`, and the window waits for the number behind it.
pub record Delivers (sid : String) (n : ℕ) (r : Receiver) : Type 0 where
  pub in_order : InOrder n r.report.delivered
  pub waits :
      (w : Window) → lookup sid r.windows ≡ some w → w.delivery_next ≡ n + length r.report.delivered

pub abort-Delivers :
    (sid : String) (n : ℕ) (r : Receiver) (e : SecureError) → Delivers sid n (abort r sid e)
unfolding abort close
abort-Delivers sid n r e = record {
  in_order = tt;
  waits = λ w h. absurd (ground (arith, lookup-erase sid sid r.windows, eq_refl sid, h));
}

-- A receiver whose window waits for the number behind its deliveries.
pub window-Delivers :
    (sid : String) (n : ℕ) (r : Receiver) (v : Window) (windows : List (String × Window))
    → r.windows ≡ insert sid v windows
    → InOrder n r.report.delivered
    → v.delivery_next ≡ n + length r.report.delivered
    → Delivers sid n r
window-Delivers sid n r v windows set in_order at = record {
  in_order = in_order;
  waits = λ w h.
      let here : lookup sid (insert sid v windows) ≡ some v =
        lookup-insert sid sid v windows ∙ ground (arith, eq_refl sid) in
      let same : v ≡ w = ground (arith, sym here ∙ ap (lookup sid) (sym set) ∙ h) in
      ap (λ (u : Window). u.delivery_next) (sym same) ∙ at;
}

pub entry-insert :
    (sid : String) (w : Window) (windows : List (String × Window))
    → entry sid (insert sid w windows) ≡ w
unfolding entry
entry-insert sid w windows =
    let here : lookup sid (insert sid w windows) ≡ some w =
      lookup-insert sid sid w windows ∙ ground (arith, eq_refl sid) in
    rw (here, entry) refl

pub next_number :
    (ds : List Delivery) (d : Delivery) (m n : ℕ)
    → m ≡ n + length ds
    → m + 1 ≡ n + length (ds ++ d ∷ [])
next_number ds d m n at = omega (arith, at, length-append ds (d ∷ []))
