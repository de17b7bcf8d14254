-- ===== src/Secure/Bounds.antt =====
-- What calls of the manager of src/secure/session.rs keep: at most four half-open handshakes with a peer.
use hacp.Common.{
  ℕ, String, ◌≡◌, refl, subst, not, List, [], ◌∷◌, arith, ok_or, Bool-cases, Result-cases, inl, inr,
  eqb, ok, err, u64_max, lookup, insert, ◌==◌, ◌||◌,
}
use hacp.Secure.Wire.{hello, validate, SecureEnvelope, session_unknown}
use hacp.Secure.Crypto.{sign_hello, EphemeralSecret, ephemeral_public_key}
use hacp.Secure.Manager.{
  Libraries, SessionManager, Pending, Session, is_pending_for, is_ack_sent_for, next_order,
  remember_hello, is_seen, drop_active,
}
use hacp.Secure.Handshake.{
  Outcome, map_some, handshake, finish_hello, Draw, greet, initiate, check_hello, answered, answer,
  admit, respond, respond_once,
}
use hacp.Secure.Messages.{
  close, close_context, seal, open_authenticated, burn, establish_info, encipher, finish, decipher,
  route, message,
}
use hacp.Secure.Outcomes.{signed_keeps, attempt_leaves, then_leaves, test_leaves, option_leaves}
use hacp.Secure.Calls.{
  Call, initiates, responds, responds_once, completes, seals, opens, closes, closes_context,
  perform, run,
}
use hacp.Secure.Few.{
  HasFew, count-filter_le, next_order-cases, known-HasFew, drop_active-HasFew, push-HasFew,
  insert-HasFew, complete_session-HasFew, found_some,
}
use hacp.Secure.Completion.{complete, check_ack, match_ack, is_repeated}

module _ (lib : Libraries) where
  finish_hello-to :
      (m : SessionManager) (session : String) (bare signed : SecureEnvelope)
      → finish_hello lib m session bare ≡ ok signed
      → signed.to ≡ bare.to
  unfolding finish_hello
  finish_hello-to m session bare signed h =
      signed_keeps (λ e. e.to) (λ e sig. refl) (validate lib.rfc3339)
        (sign_hello lib.primitives lib.canon lib.rfc3339 m.identity bare session) bare signed h

  greet-to :
      (m : SessionManager) (peer session : String) (draw : Draw)
      (made : EphemeralSecret × SecureEnvelope)
      → greet lib m peer session draw ≡ ok made
      → made.1.to ≡ peer
  unfolding greet
  greet-to m peer session draw made h = elim (Result-cases draw.ephemeral) [
    | inl (e, bad) ↦ ground arith
    | inr (ephemeral, drawn) ↦ elim (Result-cases draw.nonce) [
      | inl (e, bad) ↦ ground arith
      | inr (nonce, drawn_nonce) ↦
          let bare =
            handshake hello m.local peer (ephemeral_public_key lib.primitives ephemeral) nonce in
          elim (Result-cases (finish_hello lib m session bare)) [
            | inl (e, bad) ↦ ground arith
            | inr (signed, good) ↦ ground (arith, finish_hello-to m session bare signed good)
          ]
    ]
  ]

  next_order-HasFew : (m : SessionManager) → HasFew m → HasFew (next_order m).0
  next_order-HasFew m h = elim (next_order-cases m) [
    | inl full ↦ rw full h
    | inr counted ↦ rw counted (record { few = h.few })
  ]

  counted-HasFew :
      (m n : SessionManager) (order : ℕ) → HasFew m → next_order m ≡ (n, ok order) → HasFew n
  counted-HasFew m n order h e = subst (λ o. HasFew o.0) e (next_order-HasFew m h)

  initiate-HasFew :
      (m : SessionManager) (peer session : String) (pin : List ℕ) (draw : Draw)
      → HasFew m
      → HasFew (initiate lib m peer session pin draw).0
  unfolding initiate
  initiate-HasFew m peer session pin draw h =
      attempt_leaves HasFew m (greet lib m peer session draw) _ h (λ made good.
        then_leaves HasFew (next_order m) _ (next_order-HasFew m h) (λ n order e.
          push-HasFew peer n _ (greet-to m peer session draw made good)
            (counted-HasFew m n order h e)))

  close-HasFew : (m : SessionManager) (sid : String) → HasFew m → HasFew (close m sid).0
  unfolding close
  close-HasFew m sid h =
      option_leaves HasFew (lookup sid m.active) _ _ (λ n. h)
        (λ s found. drop_active-HasFew m sid h)

  close_context-HasFew :
      (m : SessionManager) (context : String) → HasFew m → HasFew (close_context m context)
  unfolding close_context
  close_context-HasFew m context h = record {
    few = λ peer. omega (
      arith,
      h.few peer,
      count-filter_le (is_pending_for peer) (λ (p : Pending). not (p.hacp_session == context))
          m.pending,
      count-filter_le (is_ack_sent_for peer)
          (λ (e : String × Session). not (e.1.info.hacp_session == context)) m.active,
    );
  }

  remember_hello-HasFew :
      (session signature : String) (m : SessionManager)
      → HasFew m
      → HasFew (remember_hello session signature m)
  unfolding remember_hello
  remember_hello-HasFew session signature m h =
      elim (Bool-cases (is_seen (session, signature) m.seen_hellos)) [
        | inl known ↦ rw (known, remember_hello) h
        | inr new ↦ rw (new, remember_hello) (record { few = h.few })
      ]

  admit-HasFew :
      (m : SessionManager) (session : String) (greeting : SecureEnvelope) (pin : List ℕ)
      (draw : Draw)
      → HasFew m
      → HasFew (admit lib m session greeting pin draw).0
  unfolding admit
  admit-HasFew m session greeting pin draw h =
      attempt_leaves HasFew m (answer lib m session greeting draw) _ h (λ made good.
        then_leaves HasFew (next_order m) _ (next_order-HasFew m h)
          (λ n order e. insert-HasFew greeting.from made.0 n _ refl (counted-HasFew m n order h e)))

  respond-HasFew :
      (m : SessionManager) (session : String) (greeting : SecureEnvelope) (pin : List ℕ)
      (draw : Draw)
      → HasFew m
      → HasFew (respond lib m session greeting pin draw).0
  unfolding respond
  respond-HasFew m session greeting pin draw h =
      attempt_leaves HasFew m (check_hello lib m session greeting pin) _ h (λ sig good.
        let known = remember_hello-HasFew session sig m h in
        option_leaves HasFew (answered lib (remember_hello session sig m) session greeting pin) _ _
          (λ n. admit-HasFew _ session greeting pin draw known) (λ s found. known))

  map_some-HasFew : (o : Outcome SecureEnvelope) → HasFew o.0 → HasFew (map_some lib o).0
  map_some-HasFew (m, ok reply) h = h
  map_some-HasFew (m, err e) h = h

  respond_once-HasFew :
      (m : SessionManager) (session : String) (greeting : SecureEnvelope) (pin : List ℕ)
      (draw : Draw)
      → HasFew m
      → HasFew (respond_once lib m session greeting pin draw).0
  unfolding respond_once
  respond_once-HasFew m session greeting pin draw h =
      attempt_leaves HasFew m (check_hello lib m session greeting pin) _ h (λ sig good.
        test_leaves HasFew (is_seen (session, sig) m.seen_hellos) _ _ (λ known. h)
          (λ new. map_some-HasFew _ (respond-HasFew m session greeting pin draw h)))

  -- A completed handshake waits for nothing.
  complete-HasFew :
      (m : SessionManager) (session : String) (reply : SecureEnvelope)
      → HasFew m
      → HasFew (complete lib m session reply).0
  unfolding complete
  complete-HasFew m session reply h =
      attempt_leaves HasFew m (check_ack lib m session reply) _ h (λ named good.
        test_leaves HasFew (is_repeated lib m session reply named.0) _ _ (λ again. h)
          (λ fresh.
            attempt_leaves HasFew m (match_ack lib m session reply named.0 named.1) _ h
              (λ matched e.
                complete_session-HasFew m matched.0 named.0 _ (λ peer. ground arith) h)))

  seal-HasFew :
      (m : SessionManager) (sid : String) (seq : ℕ) (contract : String) (payload : List ℕ)
      → HasFew m
      → HasFew (seal lib m sid seq contract payload).0
  unfolding seal
  seal-HasFew m sid seq contract payload h =
      attempt_leaves HasFew m (ok_or (lookup sid m.active) session_unknown) _ h (λ s found.
        test_leaves HasFew (eqb seq u64_max || eqb s.info.send_seq u64_max) _ _
          (λ full. drop_active-HasFew m sid h)
          (λ room.
            test_leaves HasFew (eqb seq s.info.send_seq) _ _
              (λ next.
                attempt_leaves HasFew m (encipher lib s (message m s sid seq contract) seq payload)
                  _ h
                  (λ ct made.
                    let kept =
                      known-HasFew m sid s (burn s) (found_some sid m.active s found)
                        (λ peer. omega arith) h in
                    let burned : SessionManager = record m {
                      active = insert sid (burn s) m.active;
                    } in
                    attempt_leaves HasFew (drop_active sid burned)
                      (finish lib burned (message m s sid seq contract) ct)
                      (λ sealed. (burned, ok sealed)) (drop_active-HasFew burned sid kept)
                      (λ sealed e. kept)))
              (λ replayed. h)))

  open_authenticated-HasFew :
      (m : SessionManager) (e : SecureEnvelope) → HasFew m → HasFew (open_authenticated lib m e).0
  unfolding open_authenticated
  open_authenticated-HasFew m e h = attempt_leaves HasFew m (route lib m e) _ h (λ routed good.
      test_leaves HasFew (eqb routed.1 u64_max) _ _ (λ full. drop_active-HasFew m routed.0 h)
        (λ room.
          attempt_leaves HasFew m (ok_or (lookup routed.0 m.active) session_unknown) _ h (λ s found.
            attempt_leaves HasFew m (decipher lib s e routed.1) _ h (λ pt opened.
              known-HasFew m routed.0 s (establish_info s) (found_some routed.0 m.active s found)
                (λ peer. ground arith) h))))

  perform-HasFew : (m : SessionManager) (c : Call) → HasFew m → HasFew (perform lib m c)
  unfolding perform
  perform-HasFew m (initiates peer session pin draw) h = initiate-HasFew m peer session pin draw h
  perform-HasFew m (responds session greeting pin draw) h =
      respond-HasFew m session greeting pin draw h
  perform-HasFew m (responds_once session greeting pin draw) h =
      respond_once-HasFew m session greeting pin draw h
  perform-HasFew m (completes session reply) h = complete-HasFew m session reply h
  perform-HasFew m (seals sid seq contract payload) h = seal-HasFew m sid seq contract payload h
  perform-HasFew m (opens e) h = open_authenticated-HasFew m e h
  perform-HasFew m (closes sid) h = close-HasFew m sid h
  perform-HasFew m (closes_context context) h = close_context-HasFew m context h

  -- From a state with at most four half-open handshakes with each peer, every sequence of calls leads to
  -- such a state.
  pub run-HasFew : (m : SessionManager) (cs : List Call) → HasFew m → HasFew (run lib m cs)
  unfolding run
  run-HasFew m [] h = h
  run-HasFew m (c ∷ cs) h = run-HasFew (perform lib m c) cs (perform-HasFew m c h)
