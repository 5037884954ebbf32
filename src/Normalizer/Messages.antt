-- ===== src/Normalizer/Messages.antt =====
-- One message as it is stored.
pub mod Identity
use linkedin_hyper_v.Prelude.{
  ℕ, String, Bool, true, false, ◌||◌, ◌&&◌, not, Option, none, some, if◌then◌else◌, truthy, or_text,
  str_eq,
}
use linkedin_hyper_v.Normalizer.{
  Script, normalize_whitespace, clean_linked_in_message_text, account_name_matches_sender,
  normalize_url, nullable_string, is_durable_linked_in_message_id, to_date_or_null, text_of,
}
use linkedin_hyper_v.Normalizer.Json.{Json, Fields, stable_hash}
use linkedin_hyper_v.Normalizer.Dates.{Pattern, Resolution, best_effort_message_date}
use linkedin_hyper_v.Normalizer.Confidence.{
  compute_sender_confidence, compute_identity_confidence, is_visible,
}
use linkedin_hyper_v.Normalizer.Keys.{
  When, Hint, Seed, Printing, text_field, build_message_dedupe_key,
}

-- The page's own record of a message.
pub record Raw : Type 0 where
  pub sender_profile_url : String
  pub event_urn : String
  pub dom_id : String
  pub time_text : String
  pub day_label : String
  pub position_hint : Hint
  pub json : Json

-- `raw` is `input.raw || input`.
pub record Input : Type 0 where
  pub is_sent_by_me : Bool
  pub sent_by_me : Bool
  pub sender_id : String
  pub sender_name : String
  pub text : String
  pub external_id : String
  pub linkedin_message_id : String
  pub id : String
  pub created_at : String
  pub sent_at : String
  pub observed_at : Option ℕ
  pub sender_profile_url : String
  pub is_optimistic : Bool
  pub source : String
  pub raw : Raw

pub record Message : Type 0 where
  pub conversation_id : String
  pub account_id : String
  pub external_id : Option String
  pub sender_id : String
  pub sender_name : String
  pub text : String
  pub sent_at : ℕ
  pub is_sent_by_me : Bool
  pub linkedin_message_id : Option String
  pub raw : Raw
  pub source : String
  pub dedupe_key : String
  pub content_hash : String
  pub observed_at : ℕ
  pub timestamp_confidence : ℕ
  pub sender_confidence : ℕ
  pub identity_confidence : ℕ
  pub visibility_state : String
  pub is_canonical : Bool

module _ (js : Script) (pattern_of : Pattern) (p : Printing) where
  unfoldable pub sent_by_account : (account_id : String) → Input → Bool
  sent_by_account account_id input =
      input.is_sent_by_me
      || (input.sent_by_me
          || (str_eq input.sender_id "__self__"
              || account_name_matches_sender js account_id input.sender_name))

  abbrev pub sender_id_of : Bool → Input → String
  sender_id_of mine input = if mine then "__self__" else or_text input.sender_id "other"

  abbrev pub sender_name_of : (account_id : String) → Bool → Input → String
  sender_name_of account_id mine input =
      or_text input.sender_name (if mine then account_id else "Unknown")

  abbrev pub durable_of : Option String → Option String
  durable_of none = none
  durable_of (some id) = if is_durable_linked_in_message_id js id then some id else none

  unfoldable pub durable_external_id : Input → Option String
  durable_external_id input = durable_of (
      nullable_string js (
        or_text input.external_id (
          or_text input.linkedin_message_id
            (or_text input.id (or_text input.raw.event_urn input.raw.dom_id)))))

  abbrev pub resolved : (now : ℕ) → Raw → Option ℕ → Resolution
  resolved now raw (some t) = record { sent_at = t; timestamp_confidence = 100 }
  resolved now raw none = best_effort_message_date js pattern_of now raw.day_label raw.time_text

  unfoldable pub date_resolution : (now : ℕ) → Input → Resolution
  date_resolution now input =
      resolved now input.raw (to_date_or_null js (or_text input.created_at input.sent_at))

  -- A hint that is no number becomes `null`.
  abbrev position_of : Hint → Hint
  position_of Hint.undefined = Hint.null
  position_of Hint.null = Hint.number 0
  position_of (Hint.number n) = Hint.number n
  position_of Hint.other = Hint.null

  abbrev position_json : Hint → Json
  position_json Hint.undefined = Json.null
  position_json Hint.null = Json.null
  position_json (Hint.number n) = Json.number n
  position_json Hint.other = Json.null

  abbrev json_or_null : Option String → Json
  json_or_null none = Json.null
  json_or_null (some text) = Json.text text

  unfoldable pub seed_of : (account_id conversation_id : String) (now : ℕ) → Input → Seed
  seed_of account_id conversation_id now input =
      let mine = sent_by_account account_id input in
      record {
        account_id = account_id;
        conversation_id = conversation_id;
        external_id = text_of (durable_external_id input);
        sender_id = sender_id_of mine input;
        sender_name = sender_name_of account_id mine input;
        text = clean_linked_in_message_text js input.text;
        sent_at = When.instant (date_resolution now input).sent_at;
        created_at = When.written (or_text input.created_at input.sent_at);
        time_text = normalize_whitespace js input.raw.time_text;
        position_hint = position_of input.raw.position_hint;
        is_optimistic = input.is_optimistic || str_eq input.source "optimistic";
        source = or_text input.source "linkedin";
      }

  unfoldable pub content_hash_of : (account_id conversation_id : String) → Input → String
  content_hash_of account_id conversation_id input =
      let mine = sent_by_account account_id input in
      stable_hash p.hashing (
        Json.object (
          text_field "accountId" account_id (
            text_field "conversationId" conversation_id (
              Fields.field "externalId" (json_or_null (durable_external_id input)) (
                text_field "senderId" (sender_id_of mine input) (
                  text_field "senderName" (sender_name_of account_id mine input) (
                    text_field "text" (clean_linked_in_message_text js input.text) (
                      text_field "timeText" (normalize_whitespace js input.raw.time_text) (
                        Fields.field "positionHint"
                          (position_json (position_of input.raw.position_hint))
                          (Fields.field "isSentByMe" (Json.flag mine) Fields.end))))))))))

  abbrev is_some : Option String → Bool
  is_some none = false
  is_some (some id) = true

  abbrev time_or : Option ℕ → ℕ → ℕ
  time_or none now = now
  time_or (some t) now = t

  unfoldable pub normalize_message :
      (account_id conversation_id : String) (now : ℕ) → Input → Message
  normalize_message account_id conversation_id now input =
      let mine = sent_by_account account_id input in
      let sender_id = sender_id_of mine input in
      let sender_name = sender_name_of account_id mine input in
      let text = clean_linked_in_message_text js input.text in
      let profile_url =
        normalize_url js (or_text input.raw.sender_profile_url input.sender_profile_url) in
      let durable = durable_external_id input in
      let resolution = date_resolution now input in
      let sender = compute_sender_confidence sender_id sender_name mine profile_url in
      let identity =
        compute_identity_confidence (is_some durable) sender resolution.timestamp_confidence text
          profile_url in
      let visible = is_visible identity sender in
      record {
        conversation_id = conversation_id;
        account_id = account_id;
        external_id = durable;
        sender_id = sender_id;
        sender_name = sender_name;
        text = text;
        sent_at = resolution.sent_at;
        is_sent_by_me = mine;
        linkedin_message_id = durable;
        raw = input.raw;
        source = or_text input.source "linkedin";
        dedupe_key = build_message_dedupe_key js p (seed_of account_id conversation_id now input);
        content_hash = content_hash_of account_id conversation_id input;
        observed_at = time_or input.observed_at now;
        timestamp_confidence = resolution.timestamp_confidence;
        sender_confidence = sender;
        identity_confidence = identity;
        visibility_state = if visible then "visible" else "pending_repair";
        is_canonical = visible;
      }
