-- ===== src/Webhook/Guard.antt =====
-- worker/src/security/ssrfGuard.js: which targets a webhook may be sent to. The URL parser, the
-- classifier of address literals and the resolver are Node's, and arguments.
pub mod Blocks
pub mod Safe
use Prim.Native.String
use linkedin_hyper_v.Prelude.{
  ℕ, ◌-◌, String, Bool, true, false, ◌&&◌, ◌||◌, not, Option, none, some, List, [], ◌∷◌, any, leb,
  ◌==◌, if◌then◌else◌, truthy, str_eq, includes, has_text, ends_with, starts_with,
}

pub record Url : Type 0 where
  pub protocol : String
  pub hostname : String

-- `net.isIP` (0, 4 or 6), the first two numbers of `address.split('.')`, the regular expression of
-- the IPv4-compatible form, `toLowerCase`, `trim`, `new URL` (`none` if it throws), and the
-- addresses that `dns.lookup` answers ([] if it is rejected).
pub record Net : Type 0 where
  pub is_ip : String → ℕ
  pub first_octets : String → ℕ × ℕ
  pub is_compatible : String → Bool
  pub lower : String → String
  pub trim : String → String
  pub parse_url : String → Option Url
  pub lookup : String → List String

-- The test on the first two numbers.
unfoldable pub is_private_pair : ℕ → ℕ → Bool
is_private_pair a b =
    a == 0
    || (a == 10
        || (a == 127
            || ((a == 100 && (leb 64 b && leb b 127))
                || ((a == 169 && b == 254)
                    || ((a == 172 && (leb 16 b && leb b 31)) || (a == 192 && b == 168))))))

abbrev pub slice_inside : String → String
slice_inside h = String.slice h 1 (String.len h - 1)

module _ (net : Net) where
  unfoldable pub is_private_ipv4 : String → Bool
  is_private_ipv4 address =
      if truthy address && net.is_ip address == 4
      then is_private_pair (net.first_octets address).0 (net.first_octets address).1
      else false

  abbrev is_private_text : String → Bool
  is_private_text normalized =
      starts_with normalized "::ffff:"
      || (net.is_compatible normalized
          || (str_eq normalized "::1"
              || (str_eq normalized "::"
                  || (starts_with normalized "fc"
                      || (starts_with normalized "fd" || starts_with normalized "fe80:")))))

  unfoldable pub is_private_ipv6 : String → Bool
  is_private_ipv6 address =
      if truthy address && net.is_ip address == 6
      then is_private_text (net.lower address)
      else false

  unfoldable pub is_private_address : String → Bool
  is_private_address address = is_private_ipv4 address || is_private_ipv6 address

  unfoldable pub strip_brackets : String → String
  strip_brackets hostname =
      let h = net.trim hostname in
      if starts_with h "[" && ends_with h "]" then slice_inside h else h

  unfoldable pub is_blocked_webhook_hostname : String → Bool
  is_blocked_webhook_hostname hostname =
      let normalized = net.lower (strip_brackets hostname) in
      if not (truthy normalized)
      then true
      else (if str_eq normalized "localhost"
            || (ends_with normalized ".localhost" || ends_with normalized ".local")
          then true
          else (if net.is_ip normalized == 0 then not (has_text normalized ".") else false))

  abbrev pub check_resolved : List String → Option String
  check_resolved [] = some "targetUrl hostname could not be resolved"
  check_resolved (address ∷ rest) =
      if any is_private_address (address ∷ rest)
      then some "targetUrl resolves to a private or internal address"
      else none

  unfoldable pub check_hostname : String → Option String
  check_hostname hostname =
      if is_blocked_webhook_hostname hostname
      then some "targetUrl resolves to a private or internal host"
      else (if net.is_ip hostname == 0
          then check_resolved (net.lookup hostname)
          else (if is_private_address hostname
              then some "targetUrl resolves to a private or internal address"
              else none))

  abbrev pub check_url : Option Url → Option String
  check_url none = some "targetUrl must be a valid absolute HTTP(S) URL"
  check_url (some url) =
      if includes ("http:" ∷ "https:" ∷ []) url.protocol
      then check_hostname (strip_brackets url.hostname)
      else some "targetUrl must be an absolute HTTP(S) URL"

  -- The message of the error that is thrown, or `none`.
  unfoldable pub assert_safe_webhook_target : String → Option String
  assert_safe_webhook_target target_url = check_url (net.parse_url target_url)
