-- ===== src/Normalizer.antt =====
-- worker/src/unified/normalizer.js: one shape for what is read of LinkedIn. A missing text is the
-- empty text, as both are falsy. Regular expressions, Unicode, `URL`, `Date` and SHA-256 are
-- arguments.
pub mod Json
pub mod Dates
pub mod Confidence
pub mod Keys
pub mod Messages
pub mod Records
pub mod Activity
pub mod TextOrder
pub mod Plain
mod Tests
use Prim.Native.String
use linkedin_hyper_v.Prelude.{
  ℕ, ◌-◌, ◌/◌, ◌<◌, ltb, String, Bool, true, false, ◌||◌, ◌&&◌, not, Option, none, some, List, [],
  ◌∷◌, if◌then◌else◌, truthy, or_text, str_eq, has_text, starts_with,
}

-- A parsed URL: its path, and its text with another path, without its hash and with its parameters
-- sorted.
pub record Url : Type 0 where
  pub pathname : String
  pub print : String → String

-- `replace(/\s+/g, ' ')`, `trim`, the two cases, the two replacements and the temporary prefixes of
-- a message, `length`, `new URL`, `replace(/\/+$/, '')`, `replace(/\/$/, '')`, the match of a profile
-- path, `new Date(text).getTime()` and `toISOString`.
pub record Script : Type 0 where
  pub collapse : String → String
  pub trim : String → String
  pub lower : String → String
  pub upper : String → String
  pub strip_keyboard : String → String
  pub strip_download : String → String
  pub is_temporary_id : String → Bool
  pub size : String → ℕ
  pub resolve : String → Option Url
  pub strip_slashes : String → String
  pub strip_slash : String → String
  pub profile_path : String → Option String
  pub time_of : String → Option ℕ
  pub iso : ℕ → String

-- `null` for a missing text.
abbrev pub text_or_null : String → Option String
text_or_null text = if truthy text then some text else none

abbrev pub text_of : Option String → String
text_of none = ""
text_of (some text) = text

module _ (js : Script) where
  unfoldable pub normalize_whitespace : String → String
  normalize_whitespace value = js.trim (js.collapse value)

  unfoldable pub clean_linked_in_message_text : String → String
  clean_linked_in_message_text value =
      js.trim (js.strip_download (js.strip_keyboard (normalize_whitespace value)))

  unfoldable pub account_name_matches_sender : (account_id sender_name : String) → Bool
  account_name_matches_sender account_id sender_name =
      let account_token = js.lower (normalize_whitespace account_id) in
      let sender_token = js.lower (normalize_whitespace sender_name) in
      if not (truthy account_token) || not (truthy sender_token)
      then false
      else (if str_eq sender_token account_token then true else has_text sender_token account_token)

  unfoldable pub nullable_string : String → Option String
  nullable_string value = text_or_null (normalize_whitespace value)

  unfoldable pub is_durable_linked_in_message_id : String → Bool
  is_durable_linked_in_message_id value =
      let id = normalize_whitespace value in
      if not (truthy id) || js.is_temporary_id id
      then false
      else starts_with id "urn:li:msg_message"
        || (starts_with id "urn:li:fsd_message" || ltb 24 (js.size id))

  abbrev printed : String → Option Url → String
  printed raw none = js.strip_slashes raw
  printed raw (some url) = js.strip_slash (url.print (or_text (js.strip_slashes url.pathname) "/"))

  unfoldable pub normalize_url : String → String
  normalize_url value =
      let raw = js.trim value in if truthy raw then printed raw (js.resolve raw) else ""

  unfoldable pub public_identifier_from_url : String → Option String
  public_identifier_from_url profile_url = js.profile_path (normalize_url profile_url)

  -- The text of an account's conversation without the account's prefix.
  unfoldable pub conversation_external_id : (account_id conversation_id : String) → String
  conversation_external_id account_id conversation_id =
      let prefix = String.◌++◌ account_id ":" in
      if starts_with conversation_id prefix
      then String.slice conversation_id (String.len prefix) (String.len conversation_id)
      else conversation_id

  -- `toDate(value, fallback)`, and `toDateOrNull(value)`.
  abbrev pub date_or : Option ℕ → ℕ → ℕ
  date_or none fallback = fallback
  date_or (some t) fallback = t

  unfoldable pub to_date : String → (fallback : ℕ) → ℕ
  to_date value fallback = if truthy value then date_or (js.time_of value) fallback else fallback

  unfoldable pub to_date_or_null : String → Option ℕ
  to_date_or_null value = if truthy value then js.time_of value else none
