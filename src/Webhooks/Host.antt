-- ===== src/Webhooks/Host.antt =====
-- sign/webhooks.py, the check of a receiver: `_blocked_ip`, `_assert_public_host`, `_validate_url`.
-- `urllib.parse.urlsplit`, `ipaddress.ip_address`, `socket.getaddrinfo` and the setting that allows
-- internal receivers are the parameter `Net`.
use lifted_sign.Base.{
  String, Bool, not, ◌||◌, Option, none, some, List, [], ◌∷◌, if◌then◌else◌, any,
}
use lifted_sign.Base.Text.{str_eq, is_blank, strip}
use lifted_sign.Webhooks.Events.{Outcome, Refusal}

-- The properties of an `ipaddress` object that the source reads.
pub record Address : Type 0 where
  pub is_loopback : Bool
  pub is_private : Bool
  pub is_link_local : Bool
  pub is_unspecified : Bool
  pub is_reserved : Bool
  pub is_multicast : Bool
  pub is_global : Bool

pub record Parts : Type 0 where
  pub scheme : String
  pub netloc : String
  pub hostname : Option String

pub record Net : Type 0 where
  pub allow_internal : Bool
  -- `none` is a ValueError
  pub urlsplit : String → Option Parts
  pub ip_address : String → Option Address
  -- `none` is an OSError
  pub getaddrinfo : String → Option (List Address)

abbrev pub blocked_ip : Address → Bool
blocked_ip ip =
    ip.is_loopback
    || (ip.is_private
        || (ip.is_link_local
            || (ip.is_unspecified || (ip.is_reserved || (ip.is_multicast || not ip.is_global)))))

-- The literal address, or every address that the name resolves to.
abbrev pub candidates : Net → String → Option (List Address)
candidates net host = elim (net.ip_address host) [
  | none ↦ net.getaddrinfo host
  | some ip ↦ some (ip ∷ [])
]

abbrev pub all_public : Option (List Address) → Outcome (Unit {0})
all_public none = Outcome.refused Refusal.unresolved
all_public (some l) =
    if any blocked_ip l then Outcome.refused Refusal.not_public else Outcome.given tt

unfoldable pub assert_public_host : Net → String → Outcome (Unit {0})
assert_public_host net host =
    if net.allow_internal then Outcome.given tt else all_public (candidates net host)

abbrev pub host_or_blank : Option String → String
host_or_blank none = ""
host_or_blank (some h) = h

abbrev pub is_http : Parts → Bool
is_http p = (str_eq p.scheme "http" || str_eq p.scheme "https")

abbrev pub url_if : String → Outcome (Unit {0}) → Outcome String
url_if u (Outcome.refused r) = Outcome.refused r
url_if u (Outcome.given _) = Outcome.given u

abbrev pub check_parts : Net → String → Option Parts → Outcome String
check_parts net u none = Outcome.refused Refusal.bad_url
check_parts net u (some p) =
    if not (is_http p) || is_blank p.netloc
    then Outcome.refused Refusal.bad_url
    else if is_blank (host_or_blank p.hostname)
    then Outcome.given u
    else url_if u (assert_public_host net (host_or_blank p.hostname))

unfoldable pub validate_url : Net → String → Outcome String
unfolding assert_public_host
validate_url net url = let u = strip url in check_parts net u (net.urlsplit u)
