-- ===== src/Webhook/Retry.antt =====
-- worker/src/services/webhookRetryService.js, with the rows that
-- worker/src/db/repositories/UnifiedRepository.js lists for it. The HMAC, the JSON printer, the
-- subscriber's answer and the clock are arguments. The code swallows a failed update of a row; the
-- polls of Retry/Laws say whether the update is stored.
pub mod Laws
use linkedin_hyper_v.Prelude.{
  ℕ, ◌+◌, ◌-◌, ◌*◌, String, Bool, true, false, ◌&&◌, ◌||◌, Option, none, some, List, [], ◌∷◌, ltb,
  leb, get_elem?, if◌then◌else◌, truthy, str_eq, template, TextMap, map_get, map_set,
}
use linkedin_hyper_v.Webhook.Guard.{Net, assert_safe_webhook_target}

abbrev pub backoff_minutes : List ℕ
backoff_minutes = 5 ∷ 15 ∷ 60 ∷ 360 ∷ []

abbrev pub max_attempts : ℕ
max_attempts = 5

-- `new Date(Date.now() + minutes * 60 * 1000)`
abbrev pub minutes_from_now : (now minutes : ℕ) → ℕ
minutes_from_now now minutes = now + minutes * 60000

abbrev backoff_or_last : Option ℕ → ℕ
backoff_or_last none = 360
backoff_or_last (some minutes) = minutes

-- `BACKOFF_MINUTES[Math.max(0, attempts - 1)] || BACKOFF_MINUTES[BACKOFF_MINUTES.length - 1]`
unfoldable pub next_backoff_minutes : ℕ → ℕ
next_backoff_minutes attempts = backoff_or_last (get_elem? backoff_minutes (attempts - 1))

-- A row of the table of webhook events, by what the retry service reads and decides.
pub record Event : Type 0 where
  pub id : String
  pub target_url : String
  pub event_type : String
  pub payload : String
  pub status : String
  pub attempts : ℕ
  pub next_attempt_at : Option ℕ
  pub created_at : ℕ

-- The data of an update; `none` in the first and the last two is a field that is not given.
pub record Update : Type 0 where
  pub attempts : Option ℕ
  pub status : String
  pub last_attempt_at : ℕ
  pub next_attempt_at : Option ℕ
  pub response_code : Option ℕ
  pub response_body : String
  pub delivered_at : Option ℕ
  pub signature : Option String

-- A POST as it is sent.
pub record Post : Type 0 where
  pub url : String
  pub event_type : String
  pub signature : String
  pub body : String

-- What comes of a POST: a status, with `res.ok` and the text, or an error.
pub data Answer : Type 0 where
  responded : (status : ℕ) (ok : Bool) (text : String) → Answer
  threw : String → Answer

-- `hmac secret body` is the hexadecimal HMAC, `cut` is `slice(0, 4000)`.
pub record Outside : Type 0 where
  pub net : Net
  pub hmac : String → String → String
  pub cut : String → String
  pub answer : Post → Answer

-- `new Map(subscriptions.map(...))`: a later subscription of a target replaces an earlier one.
unfoldable pub secrets_by_target_url : List (String × String) → TextMap String → TextMap String
secrets_by_target_url [] m = m
secrets_by_target_url (sub ∷ rest) m = secrets_by_target_url rest (map_set m sub.0 sub.1)

abbrev missing_subscription : ℕ → Update
missing_subscription now = record {
  attempts = none;
  status = "failed";
  last_attempt_at = now;
  next_attempt_at = none;
  response_code = none;
  response_body = "Webhook subscription is missing or inactive.";
  delivered_at = none;
  signature = none;
}

abbrev unsafe_target : (next now : ℕ) (signature message : String) → Update
unsafe_target next now signature message = record {
  attempts = some next;
  status = "failed";
  last_attempt_at = now;
  next_attempt_at = none;
  response_code = none;
  response_body = template ("Blocked unsafe webhook target: " ∷ message ∷ []);
  delivered_at = none;
  signature = some signature;
}

unfoldable pub after_answer : Outside → (next now : ℕ) (signature : String) → Answer → Update
after_answer o next now signature (responded status ok text) = record {
  attempts = some next;
  status =
      if ok then "delivered" else (if leb max_attempts next then "failed" else "retry_pending");
  last_attempt_at = now;
  next_attempt_at =
      if ok || leb max_attempts next
      then none
      else some (minutes_from_now now (next_backoff_minutes next));
  response_code = some status;
  response_body = o.cut text;
  delivered_at = if ok then some now else none;
  signature = some signature;
}
after_answer o next now signature (threw message) = record {
  attempts = some next;
  status = if leb max_attempts next then "failed" else "retry_pending";
  last_attempt_at = now;
  next_attempt_at =
      if leb max_attempts next
      then none
      else some (minutes_from_now now (next_backoff_minutes next));
  response_code = none;
  response_body = o.cut message;
  delivered_at = none;
  signature = some signature;
}

abbrev pub post_of : Outside → String → Event → Post
post_of o secret event = record {
  url = event.target_url;
  event_type = event.event_type;
  signature = o.hmac secret event.payload;
  body = event.payload;
}

-- The POST that is sent, if one is, and the update of the row.
abbrev pub send : Outside → (now : ℕ) → Post → (next : ℕ) → Option String → Option Post × Update
send o now post next (some message) = (none, unsafe_target next now post.signature message)
send o now post next none = (some post, after_answer o next now post.signature (o.answer post))

abbrev pub retry_with : Outside → (now : ℕ) → Event → String → Option Post × Update
retry_with o now event secret =
    if truthy secret
    then send o now (post_of o secret event) (event.attempts + 1)
        (assert_safe_webhook_target o.net event.target_url)
    else (none, missing_subscription now)

abbrev pub secret_or_empty : Option String → String
secret_or_empty none = ""
secret_or_empty (some secret) = secret

-- The body of the loop, for one event.
unfoldable pub retry_event : Outside → TextMap String → (now : ℕ) → Event → Option Post × Update
retry_event o secrets now event =
    retry_with o now event (secret_or_empty (map_get secrets event.target_url))

-- The updates that are sent, in order, for the events that the repository lists.
unfoldable pub retry_events :
    Outside → TextMap String → (now : ℕ) → List Event → List (String × Update)
retry_events o secrets now [] = []
retry_events o secrets now (event ∷ rest) =
    (event.id, (retry_event o secrets now event).1) ∷ retry_events o secrets now rest

unfoldable pub retry_pending_webhooks :
    Outside → List (String × String) → (now : ℕ) → List Event → List (String × Update)
retry_pending_webhooks o subscriptions now events =
    retry_events o (secrets_by_target_url subscriptions []) now events

abbrev is_due : Option ℕ → ℕ → Bool
is_due none now = false
is_due (some t) now = leb t now

-- The condition on a row of `listRetryableWebhookEvents`.
unfoldable pub is_retryable : (now : ℕ) → Event → Bool
is_retryable now event =
    ltb event.attempts max_attempts
    && ((str_eq event.status "retry_pending" && is_due event.next_attempt_at now)
        || (str_eq event.status "pending" && ltb event.created_at (now - 300000)))

abbrev given_or : Option ℕ → ℕ → ℕ
given_or none n = n
given_or (some m) n = m

-- `updateWebhookEvent`
unfoldable pub update_webhook_event : Event → Update → Event
update_webhook_event event data' = record event {
  attempts = given_or data'.attempts event.attempts;
  status = data'.status;
  next_attempt_at = data'.next_attempt_at;
}
