-- ===== src/Webhook/Dispatcher.antt =====
-- worker/src/events/webhookDispatcher.js: which subscriptions want an event, and the delivery with
-- bounded retries. The HMAC, the JSON printer, the subscriber's answer and the clock are arguments.
pub mod Laws
use Prim.Native.String
use linkedin_hyper_v.Prelude.{
  ℕ, zero, suc, ◌+◌, ◌-◌, ◌≤◌, min, String, Bool, true, false, ◌&&◌, ◌||◌, Option, none, some, List,
  [], ◌∷◌, ◌++◌, any, get_elem?, length, ltb, leb, if◌then◌else◌, truthy, or_text, str_eq, template,
  starts_with, ends_with,
}
use linkedin_hyper_v.Webhook.Guard.{Net, assert_safe_webhook_target}

abbrev pub backoff_ms : List ℕ
backoff_ms = 1000 ∷ 5000 ∷ 30000 ∷ 300000 ∷ 1800000 ∷ 7200000 ∷ 21600000 ∷ 86400000 ∷ []

-- `pattern.slice(0, -1)`
abbrev pub without_last : String → String
without_last pattern = String.slice pattern 0 (String.len pattern - 1)

unfoldable pub matches_glob : (pattern value : String) → Bool
matches_glob pattern value =
    if str_eq pattern "*" || str_eq pattern value
    then true
    else (if ends_with pattern ".*" then starts_with value (without_last pattern) else false)

pub record Subscription : Type 0 where
  pub url : String
  pub secret : String
  pub events : Option (List String)
  pub accounts : Option (List String)

pub record Event : Type 0 where
  pub id : String
  pub event_type : String
  pub account_id : String

abbrev or_all : Option (List String) → List String
or_all none = "*" ∷ []
or_all (some patterns) = patterns

unfoldable pub subscription_wants : Subscription → Event → Bool
subscription_wants sub event =
    any (λ p. matches_glob p event.event_type) (or_all sub.events)
    && any (λ p. matches_glob p event.account_id) (or_all sub.accounts)

-- `res.status`, or an error of the request.
pub data Answer : Type 0 where
  responded : ℕ → Answer
  threw : Answer

-- A request as it is sent: its target, its number in `delivery_attempt`, its text and its signature
-- header.
pub record Post : Type 0 where
  pub url : String
  pub delivery_attempt : ℕ
  pub body : String
  pub signature : Option String

-- `json event n` is the text of the event with its delivery attempt, `hmac secret text` the
-- hexadecimal HMAC, `seconds n` the text of the time of the n-th attempt, and `net` the network at
-- that time.
pub record Outside : Type 0 where
  pub net : ℕ → Net
  pub json : Event → ℕ → String
  pub hmac : String → String → String
  pub seconds : ℕ → String
  pub answer : Post → Answer

unfoldable pub sign : Outside → (secret ts_seconds body : String) → String
sign o secret ts_seconds body =
    template
      ("t=" ∷ ts_seconds ∷ ",v1=" ∷ o.hmac secret (template (ts_seconds ∷ "." ∷ body ∷ [])) ∷ [])

unfoldable pub post_of : Outside → Subscription → Event → (attempt : ℕ) → Post
post_of o sub event attempt = record {
  url = sub.url;
  delivery_attempt = attempt + 1;
  body = o.json event (attempt + 1);
  signature =
      if truthy sub.secret
      then some (sign o sub.secret (o.seconds attempt) (o.json event (attempt + 1)))
      else none;
}

abbrev is_ok : Answer → Bool
is_ok (responded status) = leb 200 status && ltb status 300
is_ok threw = false

abbrev send : Outside → Post → Option String → Option Post × Bool
send o post (some message) = (none, false)
send o post none = (some post, is_ok (o.answer post))

-- The request, if one is sent, and whether it succeeded.
unfoldable pub deliver_once : Outside → Subscription → Event → (attempt : ℕ) → Option Post × Bool
deliver_once o sub event attempt =
    send o (post_of o sub event attempt) (assert_safe_webhook_target (o.net attempt) sub.url)

-- What a delivery does, in order: requests, waits, and the entry of the dead-letter list.
pub data Act : Type 0 where
  sent : Post → Act
  waited : ℕ → Act
  dead_letter : (url : String) → Event → Act

abbrev pub act_of : Option Post → List Act
act_of none = []
act_of (some post) = sent post ∷ []

abbrev or_zero : Option ℕ → ℕ
or_zero none = 0
or_zero (some n) = n

-- `BACKOFF_MS[Math.min(attempt, BACKOFF_MS.length - 1)]`
unfoldable pub delay_of : ℕ → ℕ
delay_of attempt = or_zero (get_elem? backoff_ms (min attempt (length backoff_ms - 1)))

-- One attempt, before what the later ones do.
abbrev pub attempt_acts :
    Option Post → (ok waits : Bool) → (delay : ℕ) → Bool × List Act → Bool × List Act
attempt_acts post true waits delay rest = (true, act_of post)
attempt_acts post false true delay rest = (rest.0, act_of post ++ (waited delay ∷ rest.1))
attempt_acts post false false delay rest = (rest.0, act_of post ++ rest.1)

-- The loop, with the attempts that are left; the last one waits for none.
unfoldable pub deliver_loop : Outside → Subscription → Event → (left attempt : ℕ) → Bool × List Act
deliver_loop o sub event zero attempt = (false, dead_letter sub.url event ∷ [])
deliver_loop o sub event (suc left) attempt =
    let (post, ok) = deliver_once o sub event attempt in
    attempt_acts post ok (leb 1 left) (delay_of attempt)
      (deliver_loop o sub event left (attempt + 1))

unfoldable pub deliver_with_retry :
    Outside → (max_attempts : ℕ) → Subscription → Event → Bool × List Act
deliver_with_retry o max_attempts sub event = deliver_loop o sub event max_attempts 0

-- `parse` is `JSON.parse` of a list, `none` where it throws or answers no list.
unfoldable pub load_subscriptions :
    (parse : String → Option (List Subscription)) → Option String → List Subscription
load_subscriptions parse none = []
load_subscriptions parse (some raw) =
    if truthy raw then elim (parse raw) [ none ↦ [] | some subs ↦ subs ] else []

-- The handler of an event: a delivery for each subscription that wants it. The deliveries run side
-- by side; here each is listed by what it does.
unfoldable pub handle_event :
    Outside → (max_attempts : ℕ) → List Subscription → Event → List (Bool × List Act)
handle_event o max_attempts [] event = []
handle_event o max_attempts (sub ∷ rest) event =
    let later = handle_event o max_attempts rest event in
    if subscription_wants sub event
    then deliver_with_retry o max_attempts sub event ∷ later
    else later
