-- ===== src/Secure/HalfOpen.antt =====
-- The bound of src/secure/session.rs on half-open handshakes: the loop of `bound_pending` leaves at most
-- three with the peer.
use hacp.Common.{
  ℕ, zero, suc, ◌+◌, ◌≤◌, ◌<◌, String, ◌≡◌, refl, subst, sym, ◌⊎◌, Bool, true, none, some, List, [],
  ◌∷◌, count, remove_at, erase, arith, Option-cases, Bool-cases, inl, inr, eq_refl, ltb, leb,
}
use hacp.Secure.Manager.{
  SessionManager, Pending, Session, is_pending_for, is_ack_sent_for, half_open, oldest_pending,
  oldest_active, drop_oldest, drop_pending, drop_active, bound_loop, bound_pending,
}

module _ {A : Type 0} (q : A → Bool) where
  pub count-remove_at_le : (i : ℕ) (xs : List A) → count q (remove_at i xs) ≤ count q xs
  count-remove_at_le i [] = omega arith
  count-remove_at_le zero (x ∷ xs) = ground arith
  count-remove_at_le (suc i) (x ∷ xs) = ground (arith, count-remove_at_le i xs)

-- The handshake at a position counted from `i` is pending with the peer.
abbrev Drops : String → ℕ → List Pending → ℕ → Type 0
Drops peer i ps j =
    (k : ℕ) × (j ≡ i + k)
    × (suc (count (is_pending_for peer) (remove_at k ps)) ≡ count (is_pending_for peer) ps)

later-Drops :
    (peer : String) (i : ℕ) (p : Pending) (ps : List Pending) (j : ℕ)
    → Drops peer (suc i) ps j
    → Drops peer i (p ∷ ps) j
later-Drops peer i p ps j (k, at, fewer) = (suc k, omega (arith, at), ground (arith, fewer))

oldest_pending-Drops :
    (peer : String) (i : ℕ) (ps : List Pending) (j order : ℕ)
    → oldest_pending peer i ps ≡ some (j, order)
    → Drops peer i ps j
unfolding oldest_pending
oldest_pending-Drops peer i [] j order h = absurd (cc h)
oldest_pending-Drops peer i (p ∷ ps) j order h = elim (Bool-cases (is_pending_for peer p)) [
  | inl here ↦ elim (Option-cases (oldest_pending peer (suc i) ps)) [
    | inl n ↦ let first : i ≡ j = ground arith in (0, ground arith, ground arith)
    | inr ((j2, order2), rest) ↦ elim (Bool-cases (leb p.order order2)) [
      | inl first ↦ let at : i ≡ j = ground arith in (0, ground arith, ground arith)
      | inr second ↦
          let same : j2 ≡ j = ground arith in
          subst (Drops peer i (p ∷ ps)) same
            (later-Drops peer i p ps j2 (oldest_pending-Drops peer (suc i) ps j2 order2 rest))
    ]
  ]
  | inr other ↦
      later-Drops peer i p ps j (oldest_pending-Drops peer (suc i) ps j order (ground arith))
]

nothing_pending :
    (peer : String) (i : ℕ) (ps : List Pending)
    → oldest_pending peer i ps ≡ none
    → count (is_pending_for peer) ps ≡ 0
unfolding oldest_pending
nothing_pending peer i [] h = refl
nothing_pending peer i (p ∷ ps) h = ground (arith, nothing_pending peer (suc i) ps)

nothing_active :
    (peer : String) (es : List (String × Session))
    → oldest_active peer es ≡ none
    → count (is_ack_sent_for peer) es ≡ 0
unfolding oldest_active
nothing_active peer [] h = refl
nothing_active peer (e ∷ es) h = ground (arith, nothing_active peer es)

-- Removing the session of an id leaves fewer that wait for the peer.
abbrev Erases : String → List (String × Session) → String → Type 0
Erases peer es sid =
    suc (count (is_ack_sent_for peer) (erase sid es)) ≤ count (is_ack_sent_for peer) es

pub count-erase_le :
    (peer sid : String) (es : List (String × Session))
    → count (is_ack_sent_for peer) (erase sid es) ≤ count (is_ack_sent_for peer) es
unfolding erase
count-erase_le peer sid [] = omega arith
count-erase_le peer sid (e ∷ es) = ground (arith, count-erase_le peer sid es)

here-Erases :
    (peer : String) (e : String × Session) (es : List (String × Session))
    → is_ack_sent_for peer e ≡ true
    → Erases peer (e ∷ es) e.0
unfolding erase
here-Erases peer e es h = rw (eq_refl e.0, h) (omega (arith, count-erase_le peer e.0 es))

later-Erases :
    (peer : String) (e : String × Session) (es : List (String × Session)) (sid : String)
    → Erases peer es sid
    → Erases peer (e ∷ es) sid
unfolding erase
later-Erases peer e es sid h = ground (arith, h)

oldest_active-Erases :
    (peer : String) (es : List (String × Session)) (sid : String) (order : ℕ)
    → oldest_active peer es ≡ some (sid, order)
    → Erases peer es sid
unfolding oldest_active
oldest_active-Erases peer [] sid order h = absurd (cc h)
oldest_active-Erases peer (e ∷ es) sid order h = elim (Bool-cases (is_ack_sent_for peer e)) [
  | inl here ↦ elim (Option-cases (oldest_active peer es)) [
    | inl n ↦
        let at : e.0 ≡ sid = ground arith in
        subst (Erases peer (e ∷ es)) at (here-Erases peer e es here)
    | inr ((sid2, order2), rest) ↦ elim (Bool-cases (leb e.1.order order2)) [
      | inl first ↦
          let at : e.0 ≡ sid = ground arith in
          subst (Erases peer (e ∷ es)) at (here-Erases peer e es here)
      | inr second ↦
          let at : sid2 ≡ sid = ground arith in
          subst (Erases peer (e ∷ es)) at
            (later-Erases peer e es sid2 (oldest_active-Erases peer es sid2 order2 rest))
    ]
  ]
  | inr other ↦ later-Erases peer e es sid (oldest_active-Erases peer es sid order (ground arith))
]

-- A turn of the loop: one less with the peer, and no more with another.
abbrev Lowers : String → SessionManager → SessionManager → Type 0
Lowers peer m n =
    (suc (half_open peer n) ≤ half_open peer m)
    × ((other : String) → half_open other n ≤ half_open other m)

drop_pending-Lowers :
    (peer : String) (m : SessionManager) (i a : ℕ)
    → oldest_pending peer 0 m.pending ≡ some (i, a)
    → Lowers peer m (drop_pending i m)
drop_pending-Lowers peer m i a h =
    let (k, at, fewer) = oldest_pending-Drops peer 0 m.pending i a h in
    let same : i ≡ k = omega (arith, at) in
    subst (λ i. Lowers peer m (drop_pending i m)) (sym same)
      (
        omega (arith, fewer),
        λ other. omega (arith, count-remove_at_le (is_pending_for other) k m.pending),
      )

drop_active-Lowers :
    (peer : String) (m : SessionManager) (sid : String) (b : ℕ)
    → oldest_active peer m.active ≡ some (sid, b)
    → Lowers peer m (drop_active sid m)
drop_active-Lowers peer m sid b h = (
  omega (arith, oldest_active-Erases peer m.active sid b h),
  λ other. omega (arith, count-erase_le other sid m.active),
)

drop_oldest-Lowers :
    (peer : String) (m : SessionManager)
    → ((drop_oldest peer m ≡ none) × (half_open peer m ≡ 0))
      ⊎ ((n : SessionManager) × (drop_oldest peer m ≡ some n) × Lowers peer m n)
unfolding drop_oldest
drop_oldest-Lowers peer m = elim (Option-cases (oldest_pending peer 0 m.pending)) [
  | inl n ↦ elim (Option-cases (oldest_active peer m.active)) [
    | inl na ↦ inl (
      rw (n, drop_oldest) (rw (na, drop_oldest) refl),
      omega (arith, nothing_pending peer 0 m.pending n, nothing_active peer m.active na),
    )
    | inr ((sid, b), e) ↦ inr (
      drop_active sid m,
      rw (n, drop_oldest) (rw (e, drop_oldest) refl),
      drop_active-Lowers peer m sid b e,
    )
  ]
  | inr ((i, a), p) ↦ elim (Option-cases (oldest_active peer m.active)) [
    | inl na ↦ inr (
      drop_pending i m,
      rw (p, drop_oldest) (rw (na, drop_oldest) refl),
      drop_pending-Lowers peer m i a p,
    )
    | inr ((sid, b), e) ↦ elim (Bool-cases (ltb a b)) [
      | inl t ↦ inr (
        drop_pending i m,
        rw (p, drop_oldest) (rw (e, drop_oldest) (rw (t, drop_oldest) refl)),
        drop_pending-Lowers peer m i a p,
      )
      | inr f ↦ inr (
        drop_active sid m,
        rw (p, drop_oldest) (rw (e, drop_oldest) (rw (f, drop_oldest) refl)),
        drop_active-Lowers peer m sid b e,
      )
    ]
  ]
]

-- What is left within the bound, and no more with any peer.
abbrev pub IsBounded : String → SessionManager → SessionManager → Type 0
IsBounded peer m n =
    (half_open peer n < 4) × ((other : String) → half_open other n ≤ half_open other m)

bound_loop-IsBounded :
    (fuel : ℕ) (peer : String) (m : SessionManager)
    → half_open peer m ≤ fuel
    → IsBounded peer m (bound_loop fuel peer m)
unfolding bound_loop
bound_loop-IsBounded zero peer m h = (omega (arith, h), λ other. omega arith)
bound_loop-IsBounded (suc fuel) peer m h = elim (Bool-cases (ltb (half_open peer m) 4)) [
  | inl few ↦ rw (few, bound_loop) (ground arith, λ other. omega arith)
  | inr many ↦ elim (drop_oldest-Lowers peer m) [
    | inl (n, empty) ↦ absurd (ground arith)
    | inr (next, e, lower) ↦
        let (few, rest) = bound_loop-IsBounded fuel peer next (omega (arith, lower.0, h)) in
        rw (many, bound_loop)
          (rw (e, bound_loop) (few, λ other. omega (arith, rest other, lower.1 other)))
  ]
]

pub bound_pending-IsBounded :
    (peer : String) (m : SessionManager) → IsBounded peer m (bound_pending peer m)
unfolding bound_pending
bound_pending-IsBounded peer m = bound_loop-IsBounded (half_open peer m) peer m (omega arith)
