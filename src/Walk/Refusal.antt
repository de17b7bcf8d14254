-- ===== src/Walk/Refusal.antt =====
-- What a walk of Walk.antt that fails has met: a node that is below itself, or one that is not there.
use hacp.Common.{
  ℕ, zero, suc, String, ◌≡◌, ◌∙◌, true, none, some, List, [], ◌∷◌, Result, ok, err, lookup, arith,
  eq_iff, eq_refl, ◌==◌, inl, inr, contains, Bool-cases, subst, sym,
}
use hacp.Walk.{
  Found, WalkError, cycle, unknown, exhausted, each, Graph, mark, finish, nothing_found, visit,
  walk,
}
use hacp.Walk.Steps.{
  each_ok, each_err, is_open, is_open-mark, is_open-finish, Edge, Below, Leads-Link, one, Ends,
  again, open_cycle, refused_cycle, missing, failed, entered, visit-Ends,
}

module _ {A : Type 0} (g : Graph A) (R : String → Type 0)
    (R_Edge : (j k : String) → R j → Edge g j k → R k)
    (R_refused : (k : String) → R k → g.refused k ≡ true → Below g k k) where
  -- What an error of the walk says of the graph.
  abbrev pub Explains : WalkError → Type 0
  Explains (cycle k) = R k × Below g k k
  Explains (unknown k) = R k × (g.find k ≡ none)
  Explains exhausted = Unit

  -- Every node in progress is above `id`.
  abbrev Above : String → Found A → Type 0
  Above id s = (k : String) → is_open k s.colors ≡ true → Below g k id

  abbrev Keeps : ℕ → Type 0
  Keeps fuel =
      (id : String) (s t : Found A) (k : String)
      → visit g fuel id s ≡ ok t
      → is_open k t.colors ≡ is_open k s.colors

  each-Keeps :
      (fuel : ℕ)
      → Keeps fuel
      → (ks : List String) (s t : Found A) (k : String) → each (visit g fuel) ks s ≡ ok t
      → is_open k t.colors ≡ is_open k s.colors
  each-Keeps fuel keeps [] s t k e = let same : s ≡ t = cc e in cc same
  each-Keeps fuel keeps (j ∷ ks) s t k e =
      let (u, first, rest) = each_ok (visit g fuel) j ks s t e in
      each-Keeps fuel keeps ks u t k rest ∙ keeps j s u k first

  after-Keeps :
      (fuel : ℕ)
      → Keeps fuel
      → (id : String) (s t : Found A) (k : String) (r : Result WalkError (Found A))
      → Ends g fuel id s r
      → r ≡ ok t
      → is_open k t.colors ≡ is_open k s.colors
  after-Keeps fuel keeps id s t k _ (again h) e = let same : s ≡ t = cc e in cc same
  after-Keeps fuel keeps id s t k _ (open_cycle h) e = absurd (cc e)
  after-Keeps fuel keeps id s t k _ (refused_cycle h x) e = absurd (cc e)
  after-Keeps fuel keeps id s t k _ (missing h x n) e = absurd (cc e)
  after-Keeps fuel keeps id s t k _ (failed h x a found f bad) e = absurd (cc e)
  after-Keeps fuel keeps id s t k _ (entered h x a found below fine) e =
      let same : finish g id a below ≡ t = cc e in
      let inner = each-Keeps fuel keeps (g.nexts a) (mark g id s) below k fine in
      subst (λ t. is_open k t.colors ≡ is_open k s.colors) same
        (ground (arith, is_open-finish g k id a below, inner, is_open-mark g k id s, eq_iff k id))

  visit-Keeps : (fuel : ℕ) → Keeps fuel
  visit-Keeps zero id s t k e = absurd (unfold visit in cc e)
  visit-Keeps (suc fuel) id s t k e =
      after-Keeps fuel (visit-Keeps fuel) id s t k (visit g (suc fuel) id s)
        (visit-Ends g fuel id s) e

  abbrev Told : ℕ → Type 0
  Told fuel =
      (id : String) (s : Found A) (e : WalkError)
      → R id
      → Above id s
      → visit g fuel id s ≡ err e
      → Explains e

  each-Told :
      (fuel : ℕ)
      → Told fuel
      → (ks : List String) (s : Found A) (e : WalkError)
      → ((k : String) → contains k ks ≡ true → R k × Above k s)
      → each (visit g fuel) ks s ≡ err e
      → Explains e
  each-Told fuel told [] s e r h = absurd (cc h)
  each-Told fuel told (k ∷ ks) s e r h =
      let at = r k (unfold contains in ground (arith, eq_refl k)) in
      elim (each_err (visit g fuel) k ks s e h) [
        | inl bad ↦ told k s e at.0 at.1 bad
        | inr (u, good, rest) ↦
            each-Told fuel told ks u e
              (λ j j_in.
                let there = r j (unfold contains in ground arith) in
                (there.0, λ i o. there.1 i (sym (visit-Keeps fuel k s u i good) ∙ o)))
              rest
      ]

  below-Told :
      (fuel : ℕ)
      → Told fuel
      → (id : String) (s : Found A) (a : A) (e : WalkError) → R id
      → Above id s
      → g.find id ≡ some a
      → each (visit g fuel) (g.nexts a) (mark g id s) ≡ err e
      → Explains e
  below-Told fuel told id s a e r above found bad =
      each-Told fuel told (g.nexts a) (mark g id s) e
        (λ k k_in. (
          R_Edge id k r (a, found, k_in),
          λ i o. elim (Bool-cases (i == id)) [
            | inl same ↦
                one i k (subst (λ j. Edge g j k) (sym ((eq_iff i id).0 same)) (a, found, k_in))
            | inr other ↦
                Leads-Link g.find g.nexts (above i (ground (arith, is_open-mark g i id s)))
                  (a, found, k_in)
          ],
        ))
        bad

  after-Told :
      (fuel : ℕ)
      → Told fuel
      → (id : String) (s : Found A) (e : WalkError) (r : Result WalkError (Found A))
      → Ends g fuel id s r
      → R id
      → Above id s
      → r ≡ err e
      → Explains e
  after-Told fuel told id s e _ (again h) r above x = absurd (cc x)
  after-Told fuel told id s e _ (open_cycle h) r above x =
      let same : cycle id ≡ e = cc x in subst Explains same (r, above id (ground arith))
  after-Told fuel told id s e _ (refused_cycle h refused) r above x =
      let same : cycle id ≡ e = cc x in subst Explains same (r, R_refused id r refused)
  after-Told fuel told id s e _ (missing h refused n) r above x =
      let same : unknown id ≡ e = cc x in subst Explains same (r, n)
  after-Told fuel told id s e _ (failed h refused a found f bad) r above x =
      let same : f ≡ e = cc x in
      subst Explains same (below-Told fuel told id s a f r above found bad)
  after-Told fuel told id s e _ (entered h refused a found below fine) r above x = absurd (cc x)

  visit-Told : (fuel : ℕ) → Told fuel
  visit-Told zero id s e r above x =
      let same : exhausted ≡ e = unfold visit in cc x in subst Explains same tt
  visit-Told (suc fuel) id s e r above x =
      after-Told fuel (visit-Told fuel) id s e (visit g (suc fuel) id s) (visit-Ends g fuel id s) r
        above x

  pub walk_refuses :
      (fuel : ℕ) (ids : List String) (e : WalkError)
      → ((k : String) → contains k ids ≡ true → R k)
      → walk g fuel ids ≡ err e
      → Explains e
  walk_refuses fuel ids e r x =
      each-Told fuel (visit-Told fuel) ids (nothing_found g) e
        (λ k k_in. (r k k_in, λ i o. absurd (unfold lookup in cc o))) x
