-- ===== src/Webhooks/Events/Names.antt =====
-- The names of events in sign/webhooks.py, joined and split again.
use Prim.Native.Char.{code}
use Prim.Native.String.append
use Prim.Native.String.{char_at}
use lifted_sign.Base.{
  String, Bool, true, false, not, ◌&&◌, List, [], ◌∷◌, ◌≡◌, refl, sym, ap, ◌∙◌, ◌==◌, any, all,
  select, inl, inr, Bool-cases, arith,
}
use lifted_sign.Base.Text.{str_eq, eq_iff, is_blank, or_text, strip, ◌+s◌}
use lifted_sign.Webhooks.Events.{known_events, listed, split, join, Outcome, filled, is_wildcard}

pub given_inj : {A : Type 0} {a b : A} → Outcome.given a ≡ Outcome.given b → a ≡ b
given_inj h = cc h

unfoldable pub comma_free : String → Bool
comma_free String.[] = true
comma_free (String.◌∷◌ c s) = not (code c == b',') && comma_free s

split-free : (s : String) → comma_free s ≡ true → split s ≡ s ∷ []
unfolding split comma_free
split-free String.[] h = refl
split-free (String.◌∷◌ c s) h =
    let here : (code c == b',') ≡ false = ground arith in
    rw (here, split-free s (ground arith)) refl

split-append : (s t : String) → comma_free s ≡ true → split (s +s ("," +s t)) ≡ s ∷ split t
unfolding split comma_free
split-append String.[] t h = ap split (append.nil ("," +s t)) ∙ comma
  where
    comma : split ("," +s t) ≡ "" ∷ split t
    comma = ap split (append.cons (char_at "," 0) "" t) ∙ ap (λ r. "" ∷ split r) (append.nil t)
split-append (String.◌∷◌ c s) t h =
    let here : (code c == b',') ≡ false = ground arith in
    ap split (append.cons c s ("," +s t)) ∙ rw (here, split-append s t (ground arith)) refl

-- An event's name: no commas, not empty, no wildcard, no space at its ends.
unfoldable pub plain : String → Bool
unfolding comma_free strip
plain e = comma_free e && (not (is_blank e) && (not (is_wildcard e) && str_eq (strip e) e))

known_events-plain : all plain known_events ≡ true
unfolding all plain comma_free strip
known_events-plain = refl

pub listed-holds :
    (p : String → Bool) (e : String) (l : List String)
    → all p l ≡ true
    → listed e l ≡ true
    → p e ≡ true
unfolding all any
listed-holds p e [] h k = absurd (cc k)
listed-holds p e (d ∷ l) h k = elim (Bool-cases (str_eq e d)) [
  | inl q ↦ let same : e ≡ d = (eq_iff e d).0 q in ap p same ∙ ground arith
  | inr q ↦ listed-holds p e l (ground arith) (ground arith)
]

pub known-plain : (e : String) → listed e known_events ≡ true → plain e ≡ true
known-plain e h = listed-holds plain e known_events known_events-plain h

abbrev pub is_known : String → Bool
is_known e = listed e known_events

pub split-join :
    (s : String) (l : List String) → all is_known (s ∷ l) ≡ true → split (join (s ∷ l)) ≡ s ∷ l
unfolding join all plain
split-join s [] h =
    let p : plain s ≡ true = known-plain s (ground arith) in split-free s (ground arith)
split-join s (t ∷ l) h =
    let p : plain s ≡ true = known-plain s (ground arith) in
    split-append s (join (t ∷ l)) (ground arith) ∙ ap (λ r. s ∷ r) (split-join t l (ground arith))

-- The stored names are not the sentinel.
pub join-not_all :
    (s : String) (l : List String)
    → all is_known (s ∷ l) ≡ true
    → str_eq (or_text (join (s ∷ l)) "all") "all" ≡ false
unfolding all plain split comma_free strip
join-not_all s l h = elim (Bool-cases (str_eq (or_text (join (s ∷ l)) "all") "all")) [
  | inr e ↦ e
  | inl e ↦ absurd (cc (clash (join (s ∷ l)) refl e))
]
  where
    head_of : List String → String
    head_of [] = ""
    head_of (t ∷ _) = t

    s_plain : plain s ≡ true
    s_plain = known-plain s (ground arith)

    clash : (j : String) → join (s ∷ l) ≡ j → str_eq (or_text j "all") "all" ≡ true → false ≡ true
    clash String.[] k e =
        let same : s ≡ "" = ap head_of (sym (split-join s l h) ∙ ap split k) in
        ap plain (sym same) ∙ s_plain
    clash (String.◌∷◌ c r) k e =
        let whole : String.◌∷◌ c r ≡ "all" = (eq_iff (String.◌∷◌ c r) "all").0 e in
        let same : s ≡ "all" = ap head_of (sym (split-join s l h) ∙ ap split (k ∙ whole)) in
        ap plain (sym same) ∙ s_plain

pub filled-known : (l : List String) → all is_known l ≡ true → filled l ≡ l
unfolding all select plain
filled-known [] h = refl
filled-known (s ∷ l) h =
    let p : plain s ≡ true = known-plain s (ground arith) in
    let here : is_blank s ≡ false = ground arith in rw (here, filled-known l (ground arith)) refl
