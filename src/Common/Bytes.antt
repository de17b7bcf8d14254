-- ===== src/Common/Bytes.antt =====
-- The bytes of joined texts.
use Prim.Native.Char.{code}
use Prim.Native.String.{String, ◌++◌}
use text.Mathlib.TextLemmas.{nil-append, cons-append}
use mathlib.Core.Path.{◌≡◌, refl, sym, ◌∙◌, ap}
use mathlib.Core.List
use mathlib.Core.List.{List}
use hacp.Common.Lists.{append_assoc}
use hacp.Common.Texts.{utf8, as_bytes}

pub as_bytes-append : (s t : String) → as_bytes (s ++ t) ≡ List.◌++◌ (as_bytes s) (as_bytes t)
unfolding as_bytes
as_bytes-append String.[] t = rw nil-append refl
as_bytes-append (String.◌∷◌ c s) t = rw cons-append (
    ap (λ l. List.◌++◌ (utf8 (code c)) l) (as_bytes-append s t)
    ∙ sym (append_assoc (utf8 (code c)) (as_bytes s) (as_bytes t)))
