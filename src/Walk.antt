-- ===== src/Walk.antt =====
-- The depth-first walk that three checks share: `visit` of src/v2/artifact.rs, `visit` of
-- src/v2/verification.rs and `walk` of src/contract.rs. A node is coloured in progress while the nodes
-- below it are visited, and done afterwards.
pub mod Steps
pub mod Order
pub mod Success
pub mod Search
pub mod Refusal
pub mod Fuel
use hacp.Common.{
  ℕ, zero, suc, String, Bool, true, false, none, some, Option, List, [], ◌∷◌, ◌++◌, Result, ok, err,
  ◌>>=◌, ◌>>◌, fail_if, ok_or, lookup, insert, if◌then◌else◌,
}

pub data Color : Type 0 where
  in_progress : Color
  done : Color

-- What a walk has learnt: `colors` and `order`.
pub record Found (A : Type 0) : Type 0 where
  pub colors : List (String × Color)
  pub order : List A

pub data WalkError : Type 0 where
  cycle : String → WalkError
  unknown : String → WalkError
  -- No error of the code: the recursion of the model ended first.
  exhausted : WalkError

-- `for k in ks { f(k, ..)?; }`
abbrev pub each {ℓ} : {S E : Type ℓ} → (String → S → Result E S) → List String → S → Result E S
each f [] s = ok s
each f (k ∷ ks) s = f k s >>= each f ks

-- A graph as the walk sees it: `find` looks a node up, `nexts` names the nodes below it, and `refused` are
-- the ids at which the walk ends with a cycle whatever their colour.
pub record Graph (A : Type 0) : Type 0 where
  pub find : String → Option A
  pub nexts : A → List String
  pub refused : String → Bool

module _ {A : Type 0} (g : Graph A) where
  abbrev pub mark : String → Found A → Found A
  mark id s = record { colors = insert id in_progress s.colors; order = s.order }

  abbrev pub finish : String → A → Found A → Found A
  finish id a s = record { colors = insert id done s.colors; order = s.order ++ a ∷ [] }

  unfoldable pub visit : ℕ → String → Found A → Result WalkError (Found A)
  visit zero id s = err exhausted
  visit (suc fuel) id s = elim (lookup id s.colors) [
    | some done ↦ ok s
    | some in_progress ↦ err (cycle id)
    | none ↦ elim (g.refused id) [
      | true ↦ err (cycle id)
      | false ↦ do
        a ← ok_or (g.find id) (unknown id)
        below ← each (visit fuel) (g.nexts a) (mark id s)
        ok (finish id a below)
    ]
  ]

  abbrev pub nothing_found : Found A
  nothing_found = record { colors = []; order = [] }

  -- A walk from each of the ids, over one map of colours.
  abbrev pub walk : ℕ → List String → Result WalkError (Found A)
  walk fuel ids = each (visit fuel) ids nothing_found
