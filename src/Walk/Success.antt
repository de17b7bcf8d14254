-- ===== src/Walk/Success.antt =====
-- What a walk of Walk.antt that succeeds has found: every node that can be reached, each once, after
-- the nodes below it.
use hacp.Common.{
  ℕ, zero, suc, String, ◌≡◌, ◌∙◌, ap, sym, Bool-cases, refl, true, false, none, some, List, [], ◌∷◌,
  ◌++◌, ◌||◌, Result, ok, lookup, arith, eq_iff, eq_refl, ◌==◌, any-push, subst, inl, inr, contains,
}
use hacp.Walk.Order.{listed, resolved, resolved-push}
use hacp.Walk.{Found, WalkError, each, Graph, mark, finish, nothing_found, visit, walk}
use hacp.Walk.Steps.{
  each_ok, is_open, is_done, is_done-mark, is_open-mark, is_done-finish, is_open-finish, Edge,
  Below, one, more, Ends, again, open_cycle, refused_cycle, missing, failed, entered, visit-Ends,
}

-- `R` holds of the nodes that the walk is asked for, and follows the edges.
module _ {A : Type 0} (g : Graph A) (ident : A → String)
    (ident_find : (id : String) (a : A) → g.find id ≡ some a → ident a ≡ id) (R : String → Type 0)
    (R_Edge : (j k : String) → R j → Edge g j k → R k) where
  pub record Consistent (s : Found A) : Type 0 where
    pub listing : (k : String) → is_done k s.colors ≡ listed ident k s.order
    pub sorted : resolved ident g.nexts [] s.order ≡ true
    pub reached : (k : String) → listed ident k s.order ≡ true → R k
    pub allowed : (k : String) → listed ident k s.order ≡ true → g.refused k ≡ false
    pub closed :
        (j k : String) → listed ident j s.order ≡ true → Edge g j k → listed ident k s.order ≡ true
    pub acyclic : (k : String) → listed ident k s.order ≡ true → ¬ Below g k k

  pub Consistent-Below :
      {s : Found A}
      → Consistent s
      → (j k : String) → listed ident j s.order ≡ true
      → Below g j k
      → listed ident k s.order ≡ true
  Consistent-Below c j k h (one _ _ e) = c.closed j k h e
  Consistent-Below c i k h (more _ j _ e b) = Consistent-Below c j k (c.closed i j h e) b

  record Extends (s t : Found A) : Type 0 where
    open_same : (k : String) → is_open k t.colors ≡ is_open k s.colors
    done_kept : (k : String) → is_done k s.colors ≡ true → is_done k t.colors ≡ true

  Extends-trans : {s t u : Found A} → Extends s t → Extends t u → Extends s u
  Extends-trans st tu = record {
    open_same = λ k. tu.open_same k ∙ st.open_same k;
    done_kept = λ k h. tu.done_kept k (st.done_kept k h);
  }

  abbrev Good : ℕ → Type 0
  Good fuel =
      (id : String) (s t : Found A)
      → Consistent s
      → R id
      → visit g fuel id s ≡ ok t
      → Consistent t × Extends s t × (is_done id t.colors ≡ true)

  each-Good :
      (fuel : ℕ)
      → Good fuel
      → (ks : List String) (s t : Found A) → Consistent s
      → ((k : String) → contains k ks ≡ true → R k)
      → each (visit g fuel) ks s ≡ ok t
      → Consistent t
        × Extends s t
        × ((k : String) → contains k ks ≡ true → is_done k t.colors ≡ true)
  unfolding contains
  each-Good fuel good [] s t c r e =
      let same : s ≡ t = cc e in
      subst
        (λ t.
          Consistent t × Extends s t × ((k : String) → false ≡ true → is_done k t.colors ≡ true))
        same (c, record { open_same = λ k. refl; done_kept = λ k h. h }, λ k h. absurd (cc h))
  each-Good fuel good (k ∷ ks) s t c r e =
      let (u, first, rest) = each_ok (visit g fuel) k ks s t e in
      let (cu, su, du) = good k s u c (r k (ground (arith, eq_refl k))) first in
      let (ct, st, dt) = each-Good fuel good ks u t cu (λ j h. r j (ground arith)) rest in
      (ct, Extends-trans su st, λ j h. ground (arith, eq_iff j k, st.done_kept k, dt j))

  mark-Consistent :
      (id : String) (s : Found A)
      → lookup id s.colors ≡ none
      → Consistent s
      → Consistent (mark g id s)
  mark-Consistent id s h c = record {
    listing = λ k. is_done-mark g k id s h ∙ c.listing k;
    sorted = c.sorted;
    reached = c.reached;
    allowed = c.allowed;
    closed = c.closed;
    acyclic = c.acyclic;
  }

  no_loop :
      (id : String) (s : Found A)
      → is_done id s.colors ≡ false
      → Consistent s
      → ((k : String) → Edge g id k → listed ident k s.order ≡ true)
      → ¬ Below g id id
  no_loop id s new c below (one _ _ e) = ground (arith, c.listing id, below id e)
  no_loop id s new c below (more _ j _ e b) =
      ground (arith, c.listing id, Consistent-Below c j id (below j e) b)

  finish-Consistent :
      (id : String) (a : A) (s : Found A)
      → g.find id ≡ some a
      → g.refused id ≡ false
      → R id
      → is_open id s.colors ≡ true
      → ((k : String) → contains k (g.nexts a) ≡ true → is_done k s.colors ≡ true)
      → Consistent s
      → Consistent (finish g id a s)
  finish-Consistent id a s found open_to r o below c =
      let named : ident a ≡ id = ident_find id a found in
      let new : is_done id s.colors ≡ false = ground arith in
      let pushed : (k : String)
          → listed ident k (s.order ++ a ∷ []) ≡ (k == id || listed ident k s.order) =
        λ k.
          any-push (λ b. k == ident b) s.order a
          ∙ ap (λ j. k == j || listed ident k s.order) named in
      let pushed_in : (k : String)
          → listed ident k s.order ≡ true
          → listed ident k (s.order ++ a ∷ []) ≡ true =
        λ k h. ground (arith, pushed k) in
      let new_closed : (k : String) → Edge g id k → listed ident k s.order ≡ true =
        λ k (b, found_b, k_in).
          let same : a ≡ b = cc (found, found_b) in
          ground (
            arith,
            c.listing k,
            below k (subst (λ b. contains k (g.nexts b) ≡ true) (sym same) k_in),
          ) in
      let new_acyclic : ¬ Below g id id = no_loop id s new c new_closed in
      record {
        listing = λ k. ground (arith, is_done-finish g k id a s, c.listing k, pushed k);
        sorted =
            resolved-push ident g.nexts [] s.order a c.sorted
              (rw named (unfold contains in ground (arith, c.listing id, new)))
              (λ k h. ground (arith, below k h, c.listing k));
        reached = λ k h. elim (Bool-cases (k == id)) [
          | inl e ↦ subst R (sym ((eq_iff k id).0 e)) r
          | inr e ↦ c.reached k (ground (arith, pushed k))
        ];
        allowed = λ k h. elim (Bool-cases (k == id)) [
          | inl e ↦ ap g.refused ((eq_iff k id).0 e) ∙ open_to
          | inr e ↦ c.allowed k (ground (arith, pushed k))
        ];
        closed = λ j k h e. pushed_in k (elim (Bool-cases (j == id)) [
          | inl same ↦ new_closed k (subst (λ j. Edge g j k) ((eq_iff j id).0 same) e)
          | inr other ↦ c.closed j k (ground (arith, pushed j)) e
        ]);
        acyclic = λ k h. elim (Bool-cases (k == id)) [
          | inl same ↦ subst (λ k. ¬ Below g k k) (sym ((eq_iff k id).0 same)) new_acyclic
          | inr other ↦ c.acyclic k (ground (arith, pushed k))
        ];
      }

  around-Extends :
      (id : String) (a : A) (s below : Found A)
      → lookup id s.colors ≡ none
      → Extends (mark g id s) below
      → Extends s (finish g id a below)
  around-Extends id a s below h x = record {
    open_same = λ k.
        ground
          (arith, is_open-finish g k id a below, x.open_same k, is_open-mark g k id s, eq_iff k id);
    done_kept = λ k d.
        ground (arith, is_done-finish g k id a below, x.done_kept k, is_done-mark g k id s h);
  }

  after-Good :
      (fuel : ℕ)
      → Good fuel
      → (id : String) (s t : Found A) (r : Result WalkError (Found A)) → Ends g fuel id s r
      → Consistent s
      → R id
      → r ≡ ok t
      → Consistent t × Extends s t × (is_done id t.colors ≡ true)
  after-Good fuel good id s t _ (again h) c r e =
      let same : s ≡ t = cc e in
      subst (λ t. Consistent t × Extends s t × (is_done id t.colors ≡ true)) same
        (c, record { open_same = λ k. refl; done_kept = λ k d. d }, ground arith)
  after-Good fuel good id s t _ (open_cycle h) c r e = absurd (cc e)
  after-Good fuel good id s t _ (refused_cycle h x) c r e = absurd (cc e)
  after-Good fuel good id s t _ (missing h x n) c r e = absurd (cc e)
  after-Good fuel good id s t _ (failed h x a found f bad) c r e = absurd (cc e)
  after-Good fuel good id s t _ (entered h x a found below fine) c r e =
      let same : finish g id a below ≡ t = cc e in
      let (cb, xb, db) =
        each-Good fuel good (g.nexts a) (mark g id s) below (mark-Consistent id s h c)
          (λ k k_in. R_Edge id k r (a, found, k_in)) fine in
      let opened = xb.open_same id ∙ is_open-mark g id id s in
      subst (λ t. Consistent t × Extends s t × (is_done id t.colors ≡ true)) same
        (
          finish-Consistent id a below found x r (ground (arith, opened, eq_refl id)) db cb,
          around-Extends id a s below h xb,
          ground (arith, is_done-finish g id id a below, eq_refl id),
        )

  visit-Good : (fuel : ℕ) → Good fuel
  visit-Good zero id s t c r e = absurd (unfold visit in cc e)
  visit-Good (suc fuel) id s t c r e =
      after-Good fuel (visit-Good fuel) id s t (visit g (suc fuel) id s) (visit-Ends g fuel id s) c
        r e

  empty-Consistent : Consistent (nothing_found g)
  empty-Consistent = record {
    listing = λ k. unfold lookup in refl;
    sorted = refl;
    reached = λ k h. absurd (cc h);
    allowed = λ k h. absurd (cc h);
    closed = λ j k h e. absurd (cc h);
    acyclic = λ k h. absurd (cc h);
  }

  -- A walk that succeeds.
  pub walk_finds :
      (fuel : ℕ) (ids : List String) (t : Found A)
      → ((k : String) → contains k ids ≡ true → R k)
      → walk g fuel ids ≡ ok t
      → Consistent t × ((k : String) → contains k ids ≡ true → listed ident k t.order ≡ true)
  walk_finds fuel ids t r e =
      let (c, x, d) =
        each-Good fuel (visit-Good fuel) ids (nothing_found g) t empty-Consistent r e in
      (c, λ k h. ground (arith, c.listing k, d k h))
