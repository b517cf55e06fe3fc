-- ===== src/Prelude/Texts.antt =====
-- Equality of strings as a decision, for dictionaries with string keys.
use Prim.Native.String.{String}
use mathlib.Core.Path.{◌≡◌, refl}
use mathlib.Core.Bool.{Bool, true, false, false≢true}
use mathlib.Core.Logic.{◌↔◌}
use text.Mathlib.Text.{◌==◌}
use text.Mathlib.TextEquality.{eq_iff}

decide_by {ℓ} : {A : Type ℓ} (b : Bool) → ((b ≡ true) ↔ A) → Dec A
decide_by true e = yes (e.0 refl)
decide_by false e = no (λ a. false≢true (e.1 a))

unfoldable pub string_discrete : Discrete String
unfolding decide_by
string_discrete s t = decide_by (s == t) (eq_iff s t)
