-- ===== src/Secure/Few.antt =====
-- States of the manager of src/secure/session.rs with few half-open handshakes.
use hacp.Common.{
  ℕ, ◌+◌, ◌≤◌, ◌<◌, String, ◌≡◌, refl, subst, sym, ◌∙◌, ◌⊎◌, Bool, true, some, List, [], ◌∷◌, ◌++◌,
  count, filter, remove_at, arith, ok_or, Bool-cases, inl, inr, if◌then◌else◌, eq_iff, eqb, ok, err,
  u64_max, lookup, insert, weight, count_values-insert_le, count_values-insert_known, ◌==◌, ◌&&◌,
}
use hacp.Secure.Wire.{session_exhausted, session_unknown}
use hacp.Secure.Manager.{
  SessionManager, Pending, Session, is_pending_for, half_open, next_order, bound_pending,
  drop_active,
}
use hacp.Secure.HalfOpen.{bound_pending-IsBounded, count-erase_le, count-remove_at_le}

-- At most four half-open handshakes with any peer.
pub record HasFew (m : SessionManager) : Type 0 where
  pub few : (peer : String) → half_open peer m ≤ 4

module _ {A : Type 0} (q : A → Bool) where
  pub count-push :
      (xs : List A) (x : A) → count q (xs ++ x ∷ []) ≡ count q xs + (if q x then 1 else 0)
  count-push [] x = ground arith
  count-push (y ∷ xs) x = ground (arith, count-push xs x)

  pub count-filter_le : (p : A → Bool) (xs : List A) → count q (filter p xs) ≤ count q xs
  count-filter_le p [] = omega arith
  count-filter_le p (x ∷ xs) = ground (arith, count-filter_le p xs)

pub next_order-cases :
    (m : SessionManager)
    → (next_order m ≡ (m, err session_exhausted))
      ⊎ (next_order m ≡ (record m { order = m.order + 1 }, ok (m.order + 1)))
unfolding next_order
next_order-cases m = elim (Bool-cases (eqb m.order u64_max)) [
  | inl h ↦ inl (rw (h, next_order) refl)
  | inr h ↦ inr (rw (h, next_order) refl)
]

abbrev pub waits_for : String → Session → Bool
waits_for peer s = s.info.peer == peer && s.info.state == "AckSent"

-- Replacing a session by one that waits no more often.
pub known-HasFew :
    (m : SessionManager) (sid : String) (s t : Session)
    → lookup sid m.active ≡ some s
    → ((peer : String) → weight (waits_for peer) t ≤ weight (waits_for peer) s)
    → HasFew m
    → HasFew (record m { active = insert sid t m.active })
known-HasFew m sid s t found le h = record {
  few = λ peer. omega (
    arith,
    h.few peer,
    count_values-insert_known (waits_for peer) sid t s m.active found,
    le peer,
  );
}

pub drop_active-HasFew : (m : SessionManager) (sid : String) → HasFew m → HasFew (drop_active sid m)
drop_active-HasFew m sid h = record {
  few = λ peer. omega (arith, h.few peer, count-erase_le peer sid m.active);
}

-- A pending handshake more with the peer that has been bounded.
pub push-HasFew :
    (peer : String) (m : SessionManager) (p : Pending)
    → p.hello.to ≡ peer
    → HasFew m
    → HasFew (record (bound_pending peer m) { pending = (bound_pending peer m).pending ++ p ∷ [] })
push-HasFew peer m p to h = record {
  few = λ other.
      let (fits, no_more) = bound_pending-IsBounded peer m in
      let pushed = count-push (is_pending_for other) (bound_pending peer m).pending p in
      elim (Bool-cases (is_pending_for other p)) [
        | inl hit ↦
            let same : peer ≡ other = sym to ∙ (eq_iff p.hello.to other).0 hit in
            let fits_other : half_open other (bound_pending peer m) < 4 =
              subst (λ o. half_open o (bound_pending peer m) < 4) same fits in
            ground (arith, pushed, fits_other)
        | inr missed ↦ ground (arith, pushed, no_more other, h.few other)
      ];
}

-- A session more with the peer that has been bounded.
pub insert-HasFew :
    (peer sid : String) (m : SessionManager) (s : Session)
    → s.info.peer ≡ peer
    → HasFew m
    → HasFew (record (bound_pending peer m) { active = insert sid s (bound_pending peer m).active })
insert-HasFew peer sid m s at h = record {
  few = λ other.
      let (fits, no_more) = bound_pending-IsBounded peer m in
      let added = count_values-insert_le (waits_for other) sid s (bound_pending peer m).active in
      elim (Bool-cases (waits_for other s)) [
        | inl hit ↦
            let named : s.info.peer == other ≡ true = ground (arith, hit) in
            let same : peer ≡ other = sym at ∙ (eq_iff s.info.peer other).0 named in
            let fits_other : half_open other (bound_pending peer m) < 4 =
              subst (λ o. half_open o (bound_pending peer m) < 4) same fits in
            let one : weight (waits_for other) s ≤ 1 = ground (arith, hit) in
            omega (arith, added, fits_other, one)
        | inr missed ↦
            let zero_more : weight (waits_for other) s ≡ 0 = ground (arith, missed) in
            omega (arith, added, no_more other, h.few other, zero_more)
      ];
}

pub found_some :
    (sid : String) (m : List (String × Session)) (s : Session)
    → ok_or (lookup sid m) session_unknown ≡ ok s
    → lookup sid m ≡ some s
found_some sid m s h = ground (arith, h)

-- A session that waits for nothing, in place of a pending handshake.
pub complete_session-HasFew :
    (m : SessionManager) (i : ℕ) (sid : String) (s : Session)
    → ((peer : String) → weight (waits_for peer) s ≡ 0)
    → HasFew m
    → HasFew (record m { pending = remove_at i m.pending; active = insert sid s m.active })
complete_session-HasFew m i sid s none_more h = record {
  few = λ peer. omega (
    arith,
    h.few peer,
    count-remove_at_le (is_pending_for peer) i m.pending,
    count_values-insert_le (waits_for peer) sid s m.active,
    none_more peer,
  );
}
