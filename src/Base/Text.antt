-- ===== src/Base/Text.antt =====
-- What the source uses of Python's `str`, for ASCII text: `strip`, `lower`, slices from the left,
-- `str(n)` and truth.
use Prim.Native.Nat.{ℕ, zero, suc, ◌-◌, ◌/◌, ◌%◌}
use Prim.Native.Char.{Char, code}
use Prim.Native.String.{String, char_at, ◌++◌ as append}
use mathlib.Core.Path.{◌≡◌, refl}
use mathlib.Core.Bool.{Bool, true, false, ◌&&◌, ◌||◌}
use lifted_sign.Base.Tests.{leb, ◌==◌, if◌then◌else◌}
pub use text.Mathlib.Text.{◌==◌ as str_eq}
pub use text.Mathlib.TextEquality.{eq_iff}
pub use text.Mathlib.TextPositions.{eq_refl}

infixr 65 ◌+s◌
abbrev pub ◌+s◌ : String → String → String
s +s t = append s t

is_space : ℕ → Bool
is_space c = (leb 9 c && leb c 13) || (leb 28 c && leb c 32)

abbrev pub is_blank : String → Bool
is_blank String.[] = true
is_blank (String.◌∷◌ _ _) = false

-- `s or d`
abbrev pub or_text : String → String → String
or_text s d = if is_blank s then d else s

strip_left : String → String
strip_left String.[] = String.[]
strip_left (String.◌∷◌ c s) =
    let rest = strip_left s in if is_space (code c) then rest else String.◌∷◌ c s

strip_right : String → String
strip_right String.[] = String.[]
strip_right (String.◌∷◌ c s) =
    let rest = strip_right s in
    if is_space (code c) && is_blank rest then String.[] else String.◌∷◌ c rest

-- `s.strip()`
unfoldable pub strip : String → String
unfolding strip_left strip_right is_space
strip s = strip_left (strip_right s)

lower_char : Char → Char
lower_char c =
    if leb b'A' (code c) && leb (code c) b'Z'
    then char_at "abcdefghijklmnopqrstuvwxyz" (code c - b'A')
    else c

-- `s.lower()`
unfoldable pub lower : String → String
unfolding lower_char
lower String.[] = String.[]
lower (String.◌∷◌ c s) = String.◌∷◌ (lower_char c) (lower s)

-- `s[:n]`
unfoldable pub clip : ℕ → String → String
clip zero s = String.[]
clip (suc n) String.[] = String.[]
clip (suc n) (String.◌∷◌ c s) = String.◌∷◌ c (clip n s)

digits_fuel : ℕ → ℕ → String → String
digits_fuel zero n acc = acc
digits_fuel (suc f) n acc =
    let acc' = String.◌∷◌ (char_at "0123456789" (n % 10)) acc in
    let rest = digits_fuel f (n / 10) acc' in if n / 10 == 0 then acc' else rest

-- `str(n)`: one round for each decimal digit, and a number has fewer digits than its successor.
unfoldable pub show : ℕ → String
unfolding digits_fuel
show n = digits_fuel (suc n) n String.[]

strips : strip " a b " ≡ "a b"
unfolding strip
strips = refl

lowers : lower "Ab@X" ≡ "ab@x"
unfolding lower
lowers = refl

shows : show 1203 ≡ "1203"
unfolding show
shows = refl
