-- ===== src/Base/Cut.antt =====
-- Python's `s.split(sep, 1)`, for one ASCII separator, and what it finds in a text that was put
-- together with that separator.
use Prim.Native.Nat.{ℕ}
use Prim.Native.Char.{Char, code}
use Prim.Native.String.append
use Prim.Native.String.{String}
use mathlib.Core.Path.{◌≡◌, refl, ap, ◌∙◌}
use mathlib.Core.Bool.{Bool, true, false, not, ◌&&◌}
use mathlib.Core.Option.{Option, none, some}
use native.Mathlib.Omega.{arith}
use lifted_sign.Base.Tests.{◌==◌, ==-refl, if◌then◌else◌}
use lifted_sign.Base.Text.{is_blank, ◌+s◌}

unfoldable pub split_once : ℕ → String → Option (String × String)
split_once sep String.[] = none
split_once sep (String.◌∷◌ c s) =
    let rest = split_once sep s in
    if code c == sep
    then some (String.[], s)
    else elim rest [ none ↦ none | some p ↦ some (String.◌∷◌ c p.0, p.1) ]

unfoldable pub free_of : ℕ → String → Bool
free_of sep String.[] = true
free_of sep (String.◌∷◌ c s) = not (code c == sep) && free_of sep s

pub split_once-append :
    (d : Char) (s t : String)
    → free_of (code d) s ≡ true
    → split_once (code d) (s +s (String.◌∷◌ d String.[] +s t)) ≡ some (s, t)
unfolding split_once free_of
split_once-append d String.[] t h =
    ap (split_once (code d)) (append.nil (String.◌∷◌ d String.[] +s t))
    ∙ ap (split_once (code d)) (append.cons d String.[] t)
    ∙ same
  where
    same : split_once (code d) (String.◌∷◌ d (String.[] +s t)) ≡ some (String.[], t)
    same = rw (==-refl (code d)) (ap (λ r. some (String.[], r)) (append.nil t))
split_once-append d (String.◌∷◌ c s) t h =
    let here : (code c == code d) ≡ false = ground arith in
    ap (split_once (code d)) (append.cons c s (String.◌∷◌ d String.[] +s t))
    ∙ rw (here, split_once-append d s t (ground arith)) refl

pub append-nonblank :
    (s t : String) (d : Char) → is_blank (s +s (String.◌∷◌ d String.[] +s t)) ≡ false
append-nonblank String.[] t d =
    ap is_blank (append.nil (String.◌∷◌ d String.[] +s t)) ∙ ap is_blank (append.cons d String.[] t)
append-nonblank (String.◌∷◌ c s) t d = ap is_blank (append.cons c s (String.◌∷◌ d String.[] +s t))
