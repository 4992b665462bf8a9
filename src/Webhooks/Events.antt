-- ===== src/Webhooks/Events.antt =====
-- sign/webhooks.py, the events that a subscription selects: `normalize_events`, `_events_out` and
-- `_matches`, with `str.split(",")` and `",".join` of the names.
pub mod Names
pub mod Selected
pub mod Stored
use Prim.Native.Char.{Char, code}
use lifted_sign.Base.{
  ℕ, String, Bool, true, false, not, ◌||◌, List, [], ◌∷◌, ◌++◌, map, ◌==◌, if◌then◌else◌, any,
  select,
}
use lifted_sign.Base.Text.{str_eq, is_blank, or_text, strip, ◌+s◌}

-- `EVENTS`
abbrev pub known_events : List String
known_events =
    "envelope.sent" ∷ "envelope.viewed" ∷ "signer.signed" ∷ "envelope.completed"
    ∷ "envelope.declined" ∷ "envelope.voided" ∷ "envelope.expired" ∷ []

abbrev pub listed : String → List String → Bool
listed e l = any (str_eq e) l

abbrev pub prepend : Char → List String → List String
prepend c [] = String.◌∷◌ c String.[] ∷ []
prepend c (s ∷ l) = String.◌∷◌ c s ∷ l

-- `s.split(",")`
unfoldable pub split : String → List String
split String.[] = String.[] ∷ []
split (String.◌∷◌ c s) =
    let rest = split s in if code c == b',' then String.[] ∷ rest else prepend c rest

-- `",".join(l)`
unfoldable pub join : List String → String
join [] = String.[]
join (s ∷ []) = s
join (s ∷ t ∷ l) = s +s ("," +s join (t ∷ l))

-- What a caller gives: nothing, a text, a list, or a value of another type.
pub data Selector : Type 0 where
  absent other : Selector
  text : String → Selector
  names : List String → Selector

pub data Refusal : Type 0 where
  bad_selector bad_url unresolved not_public : Refusal
  unknown_event : String → Refusal

pub data Outcome (A : Type 0) : Type 0 where
  refused : Refusal → Outcome A
  given : A → Outcome A

abbrev pub filled : List String → List String
filled l = select (λ s. not (is_blank s)) l

abbrev pub is_wildcard : String → Bool
is_wildcard e = str_eq e "*" || str_eq e "all"

-- The loop over the items, with what is picked so far.
unfoldable pub pick_events : List String → List String → Outcome (List String)
pick_events picked [] = Outcome.given picked
pick_events picked (e ∷ rest) =
    let skipped = pick_events picked rest in
    let added = pick_events (picked ++ e ∷ []) rest in
    if not (listed e known_events)
    then Outcome.refused (Refusal.unknown_event e)
    else if listed e picked
    then skipped
    else added

abbrev pub joined : Outcome (List String) → Outcome String
joined (Outcome.refused r) = Outcome.refused r
joined (Outcome.given l) = Outcome.given (join l)

abbrev pub is_nil : List String → Bool
is_nil [] = true
is_nil (_ ∷ _) = false

abbrev pub selects_all : List String → Bool
selects_all items = is_nil items || any is_wildcard items

abbrev pub normalize_items : List String → Outcome String
normalize_items items =
    if selects_all items then Outcome.given "all" else joined (pick_events [] items)

-- The trimmed, nonempty items of a selector.
unfoldable pub items_of : Selector → List String
unfolding split
items_of Selector.absent = []
items_of Selector.other = []
items_of (Selector.text s) = filled (map strip (split s))
items_of (Selector.names l) = filled (map strip l)

unfoldable pub normalize_events : Selector → Outcome String
unfolding items_of pick_events join
normalize_events Selector.absent = Outcome.given "all"
normalize_events Selector.other = Outcome.refused Refusal.bad_selector
normalize_events (Selector.text s) = normalize_items (items_of (Selector.text s))
normalize_events (Selector.names l) = normalize_items (items_of (Selector.names l))

-- `_events_out`
unfoldable pub events_out : String → List String
unfolding split
events_out stored = if str_eq (or_text stored "all") "all" then "*" ∷ [] else filled (split stored)

-- `_matches`
unfoldable pub matches : String → String → Bool
unfolding split
matches stored event =
    if str_eq (or_text stored "all") "all" then true else listed event (filled (split stored))
