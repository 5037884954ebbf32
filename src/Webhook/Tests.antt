-- ===== src/Webhook/Tests.antt =====
-- Runs of the webhook services on a small network.
use linkedin_hyper_v.Prelude.{
  ◌≡◌, ◌↔◌, refl, String, true, false, none, some, List, [], ◌∷◌, arith, Every, TextMap, str_eq,
  if◌then◌else◌,
}
use linkedin_hyper_v.Webhook.Guard.{
  Net, is_private_pair, is_private_ipv4, is_private_ipv6, is_private_address, strip_brackets,
  is_blocked_webhook_hostname, check_hostname, assert_safe_webhook_target,
}
use linkedin_hyper_v.Webhook.Guard.Blocks.{InPrivateBlock, address_number, is_private_pair_iff}
use linkedin_hyper_v.Webhook.Guard.Safe.{IsSafeUrl, assert_safe_webhook_target-IsSafeUrl}
use linkedin_hyper_v.Webhook.Retry
use linkedin_hyper_v.Webhook.Retry.Laws.{IsSafelySent, Poll, retry_event-IsSafelySent}
use linkedin_hyper_v.Webhook.Dispatcher
use linkedin_hyper_v.Webhook.Dispatcher.Laws.{
  Ends, IsGuarded, deliver_with_retry-Ends, deliver_with_retry-IsGuarded,
}

-- One public host, at 203.0.113.7, and one that resolves to the local network.
abbrev net : Net
net = record {
  is_ip = λ a. if str_eq a "203.0.113.7" then 4 else (if str_eq a "10.0.0.5" then 4 else 0);
  first_octets = λ a. if str_eq a "10.0.0.5" then (10, 0) else (203, 0);
  is_compatible = λ a. false;
  lower = λ a. a;
  trim = λ a. a;
  parse_url = λ u.
      if str_eq u "https://hooks.example/x"
      then some record { protocol = "https:"; hostname = "hooks.example" }
      else some record { protocol = "https:"; hostname = "inside.example" };
  lookup = λ h. if str_eq h "hooks.example" then "203.0.113.7" ∷ [] else "10.0.0.5" ∷ [];
}

safe : assert_safe_webhook_target net "https://hooks.example/x" ≡ none
unfolding assert_safe_webhook_target check_hostname strip_brackets is_blocked_webhook_hostname
    is_private_address is_private_ipv4 is_private_ipv6 is_private_pair
safe = refl

inside :
    assert_safe_webhook_target net "https://inside.example/"
    ≡ some "targetUrl resolves to a private or internal address"
unfolding assert_safe_webhook_target check_hostname strip_brackets is_blocked_webhook_hostname
    is_private_address is_private_ipv4 is_private_ipv6 is_private_pair
inside = refl

is_private_pair_iff_example :
    (is_private_pair 172 31 ≡ true) ↔ InPrivateBlock (address_number 172 31 255 255)
is_private_pair_iff_example =
    is_private_pair_iff 172 31 255 255 (omega arith) (omega arith) (omega arith) (omega arith)

assert_safe_webhook_target_example : IsSafeUrl net (net.parse_url "https://hooks.example/x")
assert_safe_webhook_target_example =
    assert_safe_webhook_target-IsSafeUrl net "https://hooks.example/x" safe

abbrev down : Retry.Outside
down = record {
  net = net;
  hmac = λ secret body. "5f";
  cut = λ t. t;
  answer = λ post. Retry.Answer.responded 503 false "busy";
}

abbrev event : Retry.Event
event = record {
  id = "e1";
  target_url = "https://hooks.example/x";
  event_type = "message.created";
  payload = "{}";
  status = "retry_pending";
  attempts = 3;
  next_attempt_at = some 1000;
  created_at = 0;
}

abbrev secrets : TextMap String
secrets = ("https://hooks.example/x", "whsec") ∷ []

retry_event-IsSafelySent_example :
    IsSafelySent down secrets 2000 event (Retry.retry_event down secrets 2000 event)
retry_event-IsSafelySent_example = retry_event-IsSafelySent down secrets 2000 event

-- Two polls, the first of which does not store its update.
abbrev polls : List Poll
polls =
    record { outside = down; secrets = secrets; now = 2000; is_stored = false }
    ∷ record { outside = down; secrets = secrets; now = 90000000; is_stored = true }
    ∷ []

-- A subscriber that is up.
abbrev outside : Dispatcher.Outside
outside = record {
  net = λ n. net;
  json = λ e n. "{}";
  hmac = λ secret body. "5f";
  seconds = λ n. "1";
  answer = λ post.
      if str_eq post.url "https://hooks.example/x"
      then Dispatcher.Answer.responded 204
      else Dispatcher.Answer.threw;
}

abbrev sub : Dispatcher.Subscription
sub = record {
  url = "https://hooks.example/x";
  secret = "whsec";
  events = some ("message.*" ∷ []);
  accounts = none;
}

abbrev received : Dispatcher.Event
received = record { id = "e2"; event_type = "message.received"; account_id = "ann" }

wanted : Dispatcher.subscription_wants sub received ≡ true
unfolding Dispatcher.subscription_wants Dispatcher.matches_glob
wanted = refl

deliver_with_retry-Ends_example : Ends 8 (Dispatcher.deliver_with_retry outside 8 sub received)
deliver_with_retry-Ends_example = deliver_with_retry-Ends outside sub received 8

deliver_with_retry-IsGuarded_example :
    Every (IsGuarded outside sub received) (Dispatcher.deliver_with_retry outside 8 sub received).1
deliver_with_retry-IsGuarded_example = deliver_with_retry-IsGuarded outside sub received 8
