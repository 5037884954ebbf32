-- ===== src/Normalizer/Keys.antt =====
-- The key by which two observations of a message are one.
use linkedin_hyper_v.Prelude.{
  ℕ, ◌/◌, String, Bool, ◌&&◌, Option, none, some, [], ◌∷◌, if◌then◌else◌, truthy, or_text, template,
}
use linkedin_hyper_v.Normalizer.{
  Script, normalize_whitespace, clean_linked_in_message_text, is_durable_linked_in_message_id,
  nullable_string,
}
use linkedin_hyper_v.Normalizer.Json.{Json, Fields, Hashing, stable_hash}

-- A date as callers pass it: missing, a `Date`, a text, or a `Date` that is invalid.
pub data When : Type 0 where
  absent : When
  instant : ℕ → When
  written : String → When
  invalid : When

-- `a || b`, and `toDateOrNull`.
abbrev pub or_when : When → When → When
or_when absent other = other
or_when (instant t) other = instant t
or_when (written text) other = if truthy text then written text else other
or_when invalid other = invalid

abbrev pub date_of : Script → When → Option ℕ
date_of js absent = none
date_of js (instant t) = some t
date_of js (written text) = if truthy text then js.time_of text else none
date_of js invalid = none

-- A position on the page, as it is passed; `Number(null)` is 0.
pub data Hint : Type 0 where
  undefined : Hint
  null : Hint
  number : ℕ → Hint
  other : Hint

pub record Seed : Type 0 where
  pub account_id : String
  pub conversation_id : String
  pub external_id : String
  pub sender_id : String
  pub sender_name : String
  pub text : String
  pub sent_at : When
  pub created_at : When
  pub time_text : String
  pub position_hint : Hint
  pub is_optimistic : Bool
  pub source : String

-- `show` prints a number.
pub record Printing : Type 0 where
  pub hashing : Hashing
  pub show : ℕ → String

abbrev position_text : Printing → Hint → String
position_text p undefined = ""
position_text p null = p.show 0
position_text p (number n) = p.show n
position_text p other = ""

abbrev pub text_field : String → String → Fields → Fields
text_field k v rest = Fields.field k (Json.text v) rest

abbrev bucket_of : Printing → (bucket_ms : ℕ) → Option ℕ → String
bucket_of p bucket_ms none = ""
bucket_of p bucket_ms (some t) = p.show (t / bucket_ms)

unfoldable pub message_time_bucket : Script → Printing → When → (bucket_ms : ℕ) → String
message_time_bucket js p value bucket_ms = bucket_of p bucket_ms (date_of js value)

module _ (js : Script) (p : Printing) where
  unfoldable pub linkedin_key : Seed → (external_id : String) → String
  linkedin_key s external_id = template (
      "linkedin:"
      ∷ stable_hash p.hashing (
          Json.object (
            text_field "accountId" s.account_id (
              text_field "conversationId" (js.trim s.conversation_id)
                (text_field "externalId" external_id Fields.end))))
      ∷ [])

  abbrev pub sender_of : Seed → String
  sender_of s =
      js.lower (normalize_whitespace js (or_text (or_text s.sender_id s.sender_name) "unknown"))

  unfoldable pub timestamp_key : Seed → (exact : ℕ) → String
  timestamp_key s exact = template (
      "timestamp:"
      ∷ stable_hash p.hashing (
          Json.object (
            text_field "accountId" s.account_id (
              text_field "conversationId" (js.trim s.conversation_id) (
                text_field "sender" (sender_of s) (
                  text_field "text" (clean_linked_in_message_text js s.text)
                    (text_field "sentAt" (js.iso exact) Fields.end))))))
      ∷ [])

  unfoldable pub optimistic_key : Seed → String
  optimistic_key s = template (
      "optimistic:"
      ∷ stable_hash p.hashing (
          Json.object (
            text_field "accountId" s.account_id (
              text_field "conversationId" (js.trim s.conversation_id) (
                text_field "sender" (or_text (sender_of s) "__self__") (
                  text_field "text" (clean_linked_in_message_text js s.text) (
                    text_field "bucket"
                      (message_time_bucket js p (or_when s.sent_at s.created_at) 120000)
                      Fields.end))))))
      ∷ [])

  unfoldable pub fallback_key : Seed → String
  fallback_key s = template (
      "fallback:"
      ∷ stable_hash p.hashing (
          Json.object (
            text_field "accountId" s.account_id (
              text_field "conversationId" (js.trim s.conversation_id) (
                text_field "sender" (sender_of s) (
                  text_field "text" (clean_linked_in_message_text js s.text) (
                    text_field "timeText" (js.lower (normalize_whitespace js s.time_text)) (
                      text_field "positionHint" (position_text p s.position_hint)
                        (text_field "source" s.source Fields.end))))))))
      ∷ [])

  abbrev pub weak_key : Seed → Option ℕ → String
  weak_key s (some exact) =
      if truthy (clean_linked_in_message_text js s.text)
      then timestamp_key s exact
      else fallback_key s
  weak_key s none =
      if s.is_optimistic && truthy (clean_linked_in_message_text js s.text)
      then optimistic_key s
      else fallback_key s

  abbrev pub stable_id : Seed → Option String
  stable_id s =
      if is_durable_linked_in_message_id js s.external_id
      then nullable_string js s.external_id
      else none

  abbrev pub key_by : Seed → Option String → String
  key_by s none = weak_key s (date_of js (or_when s.created_at s.sent_at))
  key_by s (some external_id) = linkedin_key s external_id

  unfoldable pub build_message_dedupe_key : Seed → String
  build_message_dedupe_key s = key_by s (stable_id s)
