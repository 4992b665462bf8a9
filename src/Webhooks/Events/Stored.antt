-- ===== src/Webhooks/Events/Stored.antt =====
-- The stored selector of sign/webhooks.py: what `_matches` and `_events_out` make of what
-- `normalize_events` stored.
use lifted_sign.Base.{
  String, Bool, true, false, not, ◌&&◌, ◌||◌, List, [], ◌∷◌, map, ◌≡◌, refl, sym, ap, ◌∙◌, any, all,
  select, inl, inr, Bool-cases, arith,
}
use lifted_sign.Base.Text.{str_eq, eq_iff, or_text, strip}
use lifted_sign.Webhooks.Events.{
  listed, split, Selector, Outcome, filled, is_wildcard, joined, selects_all, normalize_items,
  items_of, normalize_events, events_out, matches,
}
use lifted_sign.Webhooks.Events.Names.{
  given_inj, is_known, plain, known-plain, split-join, join-not_all, filled-known,
}
use lifted_sign.Webhooks.Events.Selected.{IsListed, normalize_items-IsListed}

wildcard-stored :
    (items : List String) (stored : String)
    → selects_all items ≡ true
    → normalize_items items ≡ Outcome.given stored
    → stored ≡ "all"
wildcard-stored items stored h k = sym (given_inj (rw h at k))

items-normalized :
    (sel : Selector) (stored : String)
    → normalize_events sel ≡ Outcome.given stored
    → normalize_items (items_of sel) ≡ Outcome.given stored
unfolding normalize_events items_of any
items-normalized Selector.absent stored h = h
items-normalized Selector.other stored h = absurd (cc h)
items-normalized (Selector.text s) stored h = h
items-normalized (Selector.names l) stored h = h

stored_list :
    (items : List String) (stored : String)
    → (l : IsListed items stored) → filled (split stored) ≡ l.first ∷ l.rest
stored_list items stored l =
    ap (λ j. filled (split j)) l.is_join
    ∙ ap filled (split-join l.first l.rest l.known)
    ∙ filled-known (l.first ∷ l.rest) l.known

stored_not_all :
    (items : List String) (stored : String)
    → IsListed items stored
    → str_eq (or_text stored "all") "all" ≡ false
stored_not_all items stored l =
    ap (λ j. str_eq (or_text j "all") "all") l.is_join ∙ join-not_all l.first l.rest l.known

-- A subscription whose selector was stored receives an event exactly if the selector had no item,
-- had a wildcard among its items, or had the event's name among them.
pub normalize_events-matches :
    (sel : Selector) (stored : String)
    → normalize_events sel ≡ Outcome.given stored
    → (e : String) → matches stored e ≡ (selects_all (items_of sel) || listed e (items_of sel))
unfolding matches any
normalize_events-matches sel stored h e = elim (Bool-cases (selects_all (items_of sel))) [
  | inl w ↦
      let same : stored ≡ "all" =
        wildcard-stored (items_of sel) stored w (items-normalized sel stored h) in
      rw (same, w) refl
  | inr w ↦
      let l : IsListed (items_of sel) stored =
        normalize_items-IsListed (items_of sel) stored w (items-normalized sel stored h) in
      rw (stored_not_all (items_of sel) stored l, w)
        (ap (listed e) (stored_list (items_of sel) stored l) ∙ l.members e)
]

trimmed : (l : List String) → all is_known l ≡ true → map strip l ≡ l
unfolding all plain
trimmed [] h = refl
trimmed (s ∷ l) h =
    let p : plain s ≡ true = known-plain s (ground arith) in
    let here : strip s ≡ s = (eq_iff (strip s) s).0 (ground arith) in
    cc (here, trimmed l (ground arith))

third_false : (a b c d : Bool) → (a && (not b && (not c && d))) ≡ true → c ≡ false
third_false a b c d h = ground arith

no_wildcard : (l : List String) → all is_known l ≡ true → any is_wildcard l ≡ false
unfolding all any plain
no_wildcard [] h = refl
no_wildcard (s ∷ l) h =
    let here : is_wildcard s ≡ false =
      third_false _ _ (is_wildcard s) _ (known-plain s (ground arith)) in
    cc (ap (λ b. b || any is_wildcard l) here, no_wildcard l (ground arith))

-- The list that the API shows for a stored selector is stored again as that selector.
pub normalize_events-events_out :
    (sel : Selector) (stored : String)
    → normalize_events sel ≡ Outcome.given stored
    → normalize_events (Selector.names (events_out stored)) ≡ Outcome.given stored
unfolding normalize_events events_out items_of any select strip
normalize_events-events_out sel stored h = elim (Bool-cases (selects_all (items_of sel))) [
  | inl w ↦
      let same : stored ≡ "all" =
        wildcard-stored (items_of sel) stored w (items-normalized sel stored h) in
      rw same refl
  | inr w ↦
      let l : IsListed (items_of sel) stored =
        normalize_items-IsListed (items_of sel) stored w (items-normalized sel stored h) in
      let shown : events_out stored ≡ l.first ∷ l.rest =
        rw (stored_not_all (items_of sel) stored l) (stored_list (items_of sel) stored l) in
      let items : filled (map strip (l.first ∷ l.rest)) ≡ l.first ∷ l.rest =
        ap filled (trimmed (l.first ∷ l.rest) l.known) ∙ filled-known (l.first ∷ l.rest) l.known in
      ap (λ x. normalize_items (filled (map strip x))) shown
      ∙ ap normalize_items items
      ∙ rw (no_wildcard (l.first ∷ l.rest) l.known)
          (ap joined l.picks ∙ ap Outcome.given (sym l.is_join))
]
