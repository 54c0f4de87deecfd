-- ===== src/Prelude/Text.antt =====
-- Texts are compared as wholes; the library decides their equality.
use Prim.Native.String.{String}
use mathlib.Core.Path.{◌≡◌}
use mathlib.Core.Bool.{Bool, true, false}
use mathlib.Core.Option.{Option, none, some}
use text.Mathlib.Text.{◌==◌ as text_eq}
use text.Mathlib.TextEquality.{eq_iff}
use text.Mathlib.TextPositions.{eq_refl}

infix 50 ◌===◌ ◌=?◌
abbrev pub ◌===◌ : String → String → Bool
s === t = text_eq s t

-- `===` between values that may be null.
abbrev pub ◌=?◌ : Option String → Option String → Bool
none =? none = true
none =? some t = false
some s =? none = false
some s =? some t = s === t

pub ===_eq : (s t : String) → (s === t) ≡ true → s ≡ t
===_eq s t h = (eq_iff s t).0 h

pub ===_refl : (s : String) → (s === s) ≡ true
===_refl s = eq_refl s
