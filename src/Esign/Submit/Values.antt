-- ===== src/Esign/Submit/Values.antt =====
-- The submitted JSON of `submit_signature`: the map from field ids to values, whose keys are texts,
-- and the per-field adoption evidence. Python's `int` of a key is read for ASCII digits.
use lifted_sign.Base.{
  ℕ, zero, suc, ◌+◌, ◌-◌, ◌*◌, String, Bool, true, false, not, ◌&&◌, ◌||◌, Option, none, some, List,
  [], ◌∷◌, ◌==◌, leb, if◌then◌else◌,
}
use lifted_sign.Base.Int.{ℤ, pos, negsuc, eqb_ℤ}
use lifted_sign.Base.Text.{str_eq, is_blank, strip, lower, show}
use lifted_sign.Store.{Env, Field, Error, Result, ok, err, guard}

-- A JSON value; a container keeps only whether it has items.
pub data Json : Type 0 where
  text : String → Json
  number : ℕ → Json
  flag : Bool → Json
  container : Bool → Json
  null : Json

pub record Meta : Type 0 where
  pub method : String
  pub adopted_at : Option ℕ

pub record Request : Type 0 where
  pub token : String
  pub consent : Bool
  pub values : List (String × Json)
  pub field_meta : List (String × Meta)
  pub ip : String
  pub user_agent : String

-- `d.get(k)`
unfoldable pub lookup {ℓ} : {V : Type ℓ} → String → List (String × V) → Option V
lookup k [] = none
lookup k ((j, v) ∷ rest) = if str_eq j k then some v else lookup k rest

abbrev pub digit? : ℕ → Option ℕ
digit? c = if leb b'0' c && leb c b'9' then some (c - b'0') else none

-- The digits of an integer; single underscores may stand between two of them.
read_digits : Bool → ℕ → String → Option ℕ
read_digits after_digit n String.[] = if after_digit then some n else none
read_digits after_digit n (String.◌∷◌ c s) =
    let separated = read_digits false n s in
    elim (digit? (Prim.Native.Char.code c)) [
      | none ↦ if after_digit && Prim.Native.Char.code c == b'_' then separated else none
      | some d ↦ read_digits true (n * 10 + d) s
    ]

abbrev pub negate : ℕ → ℤ
negate zero = pos 0
negate (suc n) = negsuc n

read_signed : String → Option ℤ
unfolding read_digits
read_signed String.[] = none
read_signed (String.◌∷◌ c s) =
    if Prim.Native.Char.code c == b'-'
    then elim (read_digits false 0 s) [ none ↦ none | some n ↦ some (negate n) ]
    else if Prim.Native.Char.code c == b'+'
    then elim (read_digits false 0 s) [ none ↦ none | some n ↦ some (pos n) ]
    else elim (read_digits false 0 (String.◌∷◌ c s)) [ none ↦ none | some n ↦ some (pos n) ]

-- `int(k)`; `none` is a ValueError.
unfoldable pub parse_int : String → Option ℤ
unfolding read_signed
parse_int s = read_signed (strip s)

-- `d[k] = v` on a dict keyed by integers.
abbrev pub put : ℤ → String → List (ℤ × String) → List (ℤ × String)
put k v [] = (k, v) ∷ []
put k v ((j, u) ∷ rest) = if eqb_ℤ j k then (j, v) ∷ rest else (j, u) ∷ put k v rest

abbrev pub clean_one : String → Json → List (ℤ × String) → Result (List (ℤ × String))
clean_one k (text v) acc = elim (parse_int k) [
  | none ↦ err Error.malformed
  | some n ↦ ok (put n v acc)
]
clean_one k _ acc = err Error.malformed

-- The loop that fills `clean_values`.
unfoldable pub clean_values : List (String × Json) → List (ℤ × String) → Result (List (ℤ × String))
unfolding parse_int
clean_values [] acc = ok acc
clean_values ((k, v) ∷ rest) acc = elim (clean_one k v acc) [
  | ok acc' ↦ clean_values rest acc'
  | err e ↦ err e
]

abbrev pub check_words : List String
check_words = "1" ∷ "true" ∷ "yes" ∷ "on" ∷ "x" ∷ "checked" ∷ "✓" ∷ []

abbrev pub one_of : String → List String → Bool
one_of t [] = false
one_of t (u ∷ us) = str_eq u t || one_of t us

-- `pdf_edit._is_checked`
unfoldable pub is_checked : Json → Bool
is_checked (flag b) = b
is_checked (number n) = not (n == 0)
is_checked (text s) = one_of (lower (strip s)) check_words
is_checked (container b) = false
is_checked null = false

-- `val_r`: a text is stripped. Whether it counts as a value is its truth.
abbrev pub has_content : Json → Bool
has_content (text s) = not (is_blank (strip s))
has_content (number n) = not (n == 0)
has_content (flag b) = b
has_content (container b) = b
has_content null = false

-- `is_valid_image(_png_from_data_url(val_r))`: a value that is no text raises.
abbrev pub check_image : Env → Json → Result (Unit {0})
check_image env (text s) = guard (env.pdf.is_valid_image (strip s)) Error.bad_signature
check_image env _ = err Error.raised

abbrev pub is_image_type : String → Bool
is_image_type t = str_eq t "signature" || str_eq t "initials"

abbrev pub check_typed : Env → String → Json → Result (Unit {0})
check_typed env rtype raw =
    if is_image_type rtype
    then check_image env raw
    else if str_eq rtype "checkbox"
    then guard (is_checked raw) Error.unchecked_box
    else ok tt

-- REQFIELD-1 for one required field.
unfoldable pub check_field : Env → List (String × Json) → Field → Result (Unit {0})
unfolding lookup is_checked
check_field env values f = elim (lookup (show f.id) values) [
  | none ↦ err Error.required_missing
  | some raw ↦
      if has_content raw then check_typed env (lower f.type) raw else err Error.required_missing
]

unfoldable pub check_fields : Env → List (String × Json) → List Field → Result (Unit {0})
unfolding check_field
check_fields env values [] = ok tt
check_fields env values (f ∷ rest) = elim (check_field env values f) [
  | ok _ ↦ check_fields env values rest
  | err e ↦ err e
]
