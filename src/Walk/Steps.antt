-- ===== src/Walk/Steps.antt =====
-- The walk of Walk.antt, one visit at a time: how a visit ends, and what it does to the colours.
use hacp.Common.{
  ℕ, suc, String, ◌≡◌, refl, Bool, true, false, none, some, Option, List, ◌∷◌, ◌||◌, not, ◌&&◌,
  Result, ok, err, lookup, ◌⊎◌, arith, eq_iff, ◌==◌, Option-cases, Bool-cases, Result-cases, inl,
  inr, lookup-insert, contains,
}
use hacp.Walk.{
  Color, in_progress, done, Found, WalkError, cycle, unknown, each, Graph, mark, finish, visit,
}

abbrev pub is_open : String → List (String × Color) → Bool
is_open k colors = elim (lookup k colors) [ some in_progress ↦ true | _ ↦ false ]

abbrev pub is_done : String → List (String × Color) → Bool
is_done k colors = elim (lookup k colors) [ some done ↦ true | _ ↦ false ]

pub is_done-mark :
    {A : Type 0} (g : Graph A) (k id : String) (s : Found A)
    → lookup id s.colors ≡ none
    → is_done k (mark g id s).colors ≡ is_done k s.colors
is_done-mark g k id s h = ground (arith, eq_iff k id, lookup-insert id k in_progress s.colors)

pub is_open-mark :
    {A : Type 0} (g : Graph A) (k id : String) (s : Found A)
    → is_open k (mark g id s).colors ≡ (k == id || is_open k s.colors)
is_open-mark g k id s = ground (arith, eq_iff k id, lookup-insert id k in_progress s.colors)

pub is_done-finish :
    {A : Type 0} (g : Graph A) (k id : String) (a : A) (s : Found A)
    → is_done k (finish g id a s).colors ≡ (k == id || is_done k s.colors)
is_done-finish g k id a s = ground (arith, eq_iff k id, lookup-insert id k done s.colors)

pub is_open-finish :
    {A : Type 0} (g : Graph A) (k id : String) (a : A) (s : Found A)
    → is_open k (finish g id a s).colors ≡ (not (k == id) && is_open k s.colors)
is_open-finish g k id a s = ground (arith, eq_iff k id, lookup-insert id k done s.colors)

pub each_ok {ℓ} :
    {S E : Type ℓ} (f : String → S → Result E S) (k : String) (ks : List String) (s t : S)
    → each f (k ∷ ks) s ≡ ok t
    → (u : S) × (f k s ≡ ok u) × (each f ks u ≡ ok t)
each_ok f k ks s t h = elim (Result-cases (f k s)) [
  | inl (e, bad) ↦ ground arith
  | inr (u, good) ↦ (u, good, ground arith)
]

pub each_err {ℓ} :
    {S E : Type ℓ} (f : String → S → Result E S) (k : String) (ks : List String) (s : S) (e : E)
    → each f (k ∷ ks) s ≡ err e
    → (f k s ≡ err e) ⊎ ((u : S) × (f k s ≡ ok u) × (each f ks u ≡ err e))
each_err f k ks s e h = elim (Result-cases (f k s)) [
  | inl (x, bad) ↦ inl (ground arith)
  | inr (u, good) ↦ inr (u, good, ground arith)
]

module _ {A : Type 0} (find : String → Option A) (nexts : A → List String) where
  -- One edge of the graph: the item found under `j` names `k`.
  abbrev pub Link : String → String → Type 0
  Link j k = (a : A) × (find j ≡ some a) × (contains k (nexts a) ≡ true)

  -- One or more edges.
  pub data Leads : String → String → Type 0 where
    one : (j k : String) → Link j k → Leads j k
    more : (i j k : String) → Link i j → Leads j k → Leads i k

  pub Leads-Link : {i j k : String} → Leads i j → Link j k → Leads i k
  Leads-Link (one i j e) f = more i j _ e (one j _ f)
  Leads-Link (more i h j e b) f = more i h _ e (Leads-Link b f)

  pub Leads_trans : {i j k : String} → Leads i j → Leads j k → Leads i k
  Leads_trans (one i j e) f = more i j _ e f
  Leads_trans (more i h j e b) f = more i h _ e (Leads_trans b f)

  -- The first edge, and what is left.
  pub Leads-first : {i k : String} → Leads i k → (j : String) × Link i j × ((k ≡ j) ⊎ Leads j k)
  Leads-first (one i k e) = (k, e, inl refl)
  Leads-first (more i j k e b) = (j, e, inr b)

module _ {A : Type 0} (g : Graph A) where
  abbrev pub Edge : String → String → Type 0
  Edge j k = Link g.find g.nexts j k

  abbrev pub Below : String → String → Type 0
  Below j k = Leads g.find g.nexts j k

  -- The ends a visit has, in the order of its tests.
  pub data Ends (fuel : ℕ) (id : String) (s : Found A) : Result WalkError (Found A) → Type 0 where
    again : lookup id s.colors ≡ some done → Ends fuel id s (ok s)
    open_cycle : lookup id s.colors ≡ some in_progress → Ends fuel id s (err (cycle id))
    refused_cycle :
        lookup id s.colors ≡ none → g.refused id ≡ true → Ends fuel id s (err (cycle id))
    missing :
        lookup id s.colors ≡ none
        → g.refused id ≡ false
        → g.find id ≡ none
        → Ends fuel id s (err (unknown id))
    failed :
        lookup id s.colors ≡ none
        → g.refused id ≡ false
        → (a : A) → g.find id ≡ some a
        → (e : WalkError) → each (visit g fuel) (g.nexts a) (mark g id s) ≡ err e
        → Ends fuel id s (err e)
    entered :
        lookup id s.colors ≡ none
        → g.refused id ≡ false
        → (a : A) → g.find id ≡ some a
        → (below : Found A) → each (visit g fuel) (g.nexts a) (mark g id s) ≡ ok below
        → Ends fuel id s (ok (finish g id a below))

  Color-cases : (o : Option Color) → (o ≡ none) ⊎ ((o ≡ some done) ⊎ (o ≡ some in_progress))
  Color-cases none = inl refl
  Color-cases (some done) = inr (inl refl)
  Color-cases (some in_progress) = inr (inr refl)

  -- Every visit ends in one of these ways.
  pub visit-Ends : (fuel : ℕ) (id : String) (s : Found A) → Ends fuel id s (visit g (suc fuel) id s)
  unfolding visit
  visit-Ends fuel id s = elim (Color-cases (lookup id s.colors)) [
    | inr (inl h) ↦ rw (h, visit) (again h)
    | inr (inr h) ↦ rw (h, visit) (open_cycle h)
    | inl h ↦
        rw (h, visit)
          (elim (Bool-cases (g.refused id)) [
            | inl r ↦ rw (r, visit) (refused_cycle h r)
            | inr r ↦
                rw (r, visit)
                  (elim (Option-cases (g.find id)) [
                    | inl n ↦ rw (n, visit) (missing h r n)
                    | inr (a, found) ↦
                        rw (found, visit)
                          (elim (Result-cases (each (visit g fuel) (g.nexts a) (mark g id s))) [
                            | inl (e, bad) ↦ rw (bad, visit) (failed h r a found e bad)
                            | inr (below, good) ↦ rw (good, visit) (entered h r a found below good)
                          ])
                  ])
          ])
  ]
