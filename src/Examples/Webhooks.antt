-- ===== src/Examples/Webhooks.antt =====
-- A net, receivers and two tenants' subscriptions, and the theorems on webhooks at them.
use lifted_sign.Base.{
  ℕ, zero, suc, true, false, not, ◌||◌, ◌≢◌, none, some, [], ◌∷◌, ◌≡◌, refl, any, find, select,
  get_elem?,
}
use lifted_sign.Base.Text.{strip}
use lifted_sign.Webhooks.Events.{
  Selector, Outcome, normalize_events, items_of, pick_events, join, split, matches, events_out,
  selects_all, listed,
}
use lifted_sign.Webhooks.Events.Stored.{normalize_events-matches, normalize_events-events_out}
use lifted_sign.Webhooks.Host.{Net, Address, assert_public_host}
use lifted_sign.Webhooks.Tables.{
  Subscription, Hooks, Public, public_row, get_webhook_owned, create_webhook, delete_webhook,
  rotate_secret, has_hook_id,
}
use lifted_sign.Webhooks.Deliver.{Response, Receiver, check_receiver, deliver_sync, untried}
use lifted_sign.Webhooks.Deliver.Attempts.{IsRun, deliver_sync-IsRun}
use lifted_sign.Webhooks.Deliver.Marks.{Sent, deliver_each, deliver_each-disables}
use lifted_sign.Webhooks.Health.{failed_in_a_row}
use lifted_sign.Webhooks.Isolation.{others, tenants-isolated, IsPublic, deliver_sync-IsPublic}

abbrev public_address : Address
public_address = record {
  is_loopback = false;
  is_private = false;
  is_link_local = false;
  is_unspecified = false;
  is_reserved = false;
  is_multicast = false;
  is_global = true;
}

abbrev net : Net
net = record {
  allow_internal = false;
  urlsplit = λ u.
      some (record { scheme = "https"; netloc = "example.com"; hostname = some "example.com" });
  ip_address = λ h. none;
  getaddrinfo = λ h. some (public_address ∷ []);
}

abbrev hook : ℕ → ℕ → Subscription
hook i owner = record {
  id = i;
  owner_account_id = owner;
  url = "https://example.com/hook";
  secret = "whsec_1";
  events = "all";
  active = true;
  created_at = some 100;
  last_status = none;
  last_delivery_at = none;
  failure_count = 0;
}

abbrev hooks : Hooks
hooks = record {
  subscriptions = hook 1 5 ∷ hook 2 6 ∷ [];
  deliveries = [];
  next_webhook = 3;
  next_delivery = 1;
}

-- A receiver that is out of order at its first attempt, and one that always is.
abbrev recovering : Receiver
recovering = record {
  post = λ n. elim n [
    | zero ↦ Response.answer 500
    | suc k ↦ elim k [ zero ↦ Response.http_error "timeout" | suc _ ↦ Response.answer 204 ]
  ];
  elapsed_ms = λ n. 12;
}

abbrev broken : Receiver
broken = record { post = λ n. Response.answer 500; elapsed_ms = λ n. 12 }

abbrev two_events : Selector
two_events = Selector.text " signer.signed, envelope.voided,signer.signed"

two-stored : normalize_events two_events ≡ Outcome.given "signer.signed,envelope.voided"
unfolding normalize_events items_of split strip select pick_events any join
two-stored = refl

normalize_events-matches_example :
    matches "signer.signed,envelope.voided" "envelope.sent"
    ≡ (selects_all (items_of two_events) || listed "envelope.sent" (items_of two_events))
normalize_events-matches_example =
    normalize_events-matches two_events "signer.signed,envelope.voided" two-stored "envelope.sent"

normalize_events-events_out_example :
    normalize_events (Selector.names (events_out "signer.signed,envelope.voided"))
    ≡ Outcome.given "signer.signed,envelope.voided"
normalize_events-events_out_example =
    normalize_events-events_out two_events "signer.signed,envelope.voided" two-stored

receiver-public : check_receiver net (net.urlsplit (hook 1 5).url) ≡ Outcome.given tt
unfolding assert_public_host any
receiver-public = refl

deliver_sync-IsRun_example :
    IsRun recovering 1 3
      (untried (hook 1 5) hooks)
      (deliver_sync net recovering 300 (hook 1 5) "envelope.sent" 3 hooks)
deliver_sync-IsRun_example =
    deliver_sync-IsRun net recovering 300 (hook 1 5) "envelope.sent" 3 hooks receiver-public

deliver_sync-IsPublic_example :
    ((deliver_sync net recovering 300 (hook 1 5) "envelope.sent" 3 hooks).result.attempts ≢ 0
      → IsPublic net (hook 1 5).url)
    × ((deliver_sync net recovering 300 (hook 1 5) "envelope.sent" 3 hooks).result.attempts ≡ 0
        → ((deliver_sync net recovering 300 (hook 1 5) "envelope.sent" 3 hooks).hooks.deliveries
            ≡ hooks.deliveries)
          × ((deliver_sync net recovering 300 (hook 1 5) "envelope.sent" 3 hooks).result.ok
              ≡ false))
deliver_sync-IsPublic_example =
    deliver_sync-IsPublic net recovering 300 (hook 1 5) "envelope.sent" 3 hooks

abbrev sent : ℕ → Receiver → Sent
sent now r = record { now = now; event = "envelope.sent"; receiver = r; attempts = 1 }

hook-found : find (has_hook_id 1) hooks.subscriptions ≡ some (hook 1 5)
unfolding find
hook-found = refl

deliver_each-disables_example :
    (t : Subscription) × (find
        (has_hook_id 1)
        (deliver_each net
          (hook 1 5)
          (sent 300 broken ∷ sent 310 recovering ∷ [])
          hooks).1.subscriptions
      ≡ some t)
    × (t.active
        ≡ not (
            failed_in_a_row
              (deliver_each net (hook 1 5) (sent 300 broken ∷ sent 310 recovering ∷ []) hooks).0))
deliver_each-disables_example =
    deliver_each-disables net (hook 1 5) (sent 300 broken ∷ sent 310 recovering ∷ []) hooks
      (hook 1 5) hook-found refl refl

tenants-isolated_example :
    (others 5 (create_webhook net 300 "whsec_2" 5 "https://example.com" two_events hooks).1
      ≡ others 5 hooks)
    × (others 5 (delete_webhook 5 2 hooks).1 ≡ others 5 hooks)
    × (others 5 (rotate_secret "whsec_2" 5 2 hooks).1 ≡ others 5 hooks)
    × ((p : Public)
        → get_webhook_owned 5 2 hooks ≡ some p
        → (s : Subscription) × (i : ℕ) × (get_elem? hooks.subscriptions i ≡ some s)
          × (s.id ≡ 2)
          × (s.owner_account_id ≡ 5)
          × (p ≡ public_row s))
tenants-isolated_example =
    tenants-isolated net 300 "whsec_2" 5 2 "https://example.com" two_events hooks
