-- ===== src/Normalizer/Records.antt =====
-- Profiles and conversations as they are stored. A field of an input that is missing is the empty
-- text; `raw` is `input.raw || input`.
pub mod Ids
use Prim.Native.String
use linkedin_hyper_v.Prelude.{
  ℕ, String, Bool, true, false, ◌||◌, ◌&&◌, not, Option, none, some, [], ◌∷◌, if◌then◌else◌, truthy,
  or_text, str_eq, template, starts_with,
}
use linkedin_hyper_v.Normalizer.{
  Script, normalize_whitespace, normalize_url, nullable_string, public_identifier_from_url,
  conversation_external_id, to_date, text_or_null, text_of,
}
use linkedin_hyper_v.Normalizer.Json.{Json, Fields, Hashing, stable_hash}
use linkedin_hyper_v.Normalizer.Keys.{text_field}

pub record ProfileInput : Type 0 where
  pub profile_url : String
  pub url : String
  pub public_identifier : String
  pub name : String
  pub participant_name : String
  pub external_id : String
  pub id : String
  pub headline : String
  pub location : String
  pub avatar_url : String
  pub company : String
  pub source : String
  pub raw : Json

pub record Profile : Type 0 where
  pub account_id : String
  pub external_id : Option String
  pub profile_url : String
  pub public_identifier : Option String
  pub name : String
  pub headline : Option String
  pub location : Option String
  pub avatar_url : Option String
  pub company : Option String
  pub raw : Json
  pub source : String
  pub content_hash : String

abbrev or_option : Option String → Option String → Option String
or_option none other = other
or_option (some text) other = some text

abbrev pub json_of : Option String → Json
json_of none = Json.null
json_of (some text) = Json.text text

-- `cut` is `slice(0, 16)`.
pub record Text : Type 0 where
  pub js : Script
  pub hashing : Hashing
  pub cut : String → String

module _ (x : Text) where
  unfoldable pub normalize_profile : (account_id : String) → ProfileInput → Profile
  normalize_profile account_id input =
      let profile_url = normalize_url x.js (or_text input.profile_url input.url) in
      let public_identifier =
        or_option (nullable_string x.js input.public_identifier)
          (public_identifier_from_url x.js profile_url) in
      let name = normalize_whitespace x.js (
        or_text input.name
          (or_text input.participant_name (or_text (text_of public_identifier) "Unknown"))) in
      record {
        account_id = account_id;
        external_id =
            nullable_string x.js
              (or_text input.external_id (or_text input.id (text_of public_identifier)));
        profile_url = or_text profile_url (
            template (
              "urn:linkedin:unknown:"
              ∷ x.cut (
                  stable_hash x.hashing (
                    Json.object
                      (text_field "accountId" account_id (text_field "name" name Fields.end))))
              ∷ []));
        public_identifier = public_identifier;
        name = name;
        headline = nullable_string x.js input.headline;
        location = nullable_string x.js input.location;
        avatar_url = nullable_string x.js input.avatar_url;
        company = nullable_string x.js input.company;
        raw = input.raw;
        source = or_text input.source "linkedin";
        content_hash = stable_hash x.hashing (
            Json.object (
              text_field "accountId" account_id (
                text_field "profileUrl" profile_url (
                  Fields.field "publicIdentifier" (json_of public_identifier) (
                    text_field "name" name (
                      text_field "headline" input.headline (
                        text_field "location" input.location
                          (text_field "company" input.company Fields.end))))))));
      }

pub record ConversationInput : Type 0 where
  pub conversation_id : String
  pub id : String
  pub participant_profile_url : String
  -- `participant.name ?? participant.displayName ?? input.participantName ?? 'Unknown'`
  pub participant_name : Option String
  pub participant_avatar_url : String
  -- `lastMessage.createdAt || lastMessage.sentAt || input.lastMessageAt || input.createdAt`
  pub last_at : String
  pub last_text : String
  pub last_sent_by_me : Bool
  pub last_sender_id : String
  pub input_last_sent_by_me : Bool
  pub thread_url : String
  pub url : String
  pub sync_state : String
  pub message_count : Option ℕ
  pub last_resolved_at : String
  pub resolve_attempts : Option ℕ
  pub resolve_error : String
  pub source : String
  pub cursor : String
  pub has_more_history : Bool

pub record Conversation : Type 0 where
  pub id : String
  pub external_id : String
  pub account_id : String
  pub thread_url : Option String
  pub participant_name : String
  pub participant_profile_url : Option String
  pub participant_avatar_url : Option String
  pub last_message_at : ℕ
  pub last_message_text : String
  pub last_message_sent_by_me : Bool
  pub sync_state : String
  pub message_count : ℕ
  pub last_resolved_at : Option ℕ
  pub resolve_attempts : ℕ
  pub resolve_error : Option String
  pub source : String
  pub last_seen_at : ℕ
  pub sync_cursor : Option String
  pub has_more_history : Bool
  pub content_hash : String

abbrev number_or_zero : Option ℕ → ℕ
number_or_zero none = 0
number_or_zero (some n) = n

abbrev name_or : Option String → String
name_or none = "Unknown"
name_or (some name) = name

module _ (x : Text) where
  abbrev pub optional_date : String → (now : ℕ) → Option ℕ
  optional_date value now = if truthy value then some (to_date x.js value now) else none

  -- `nullableString(input.syncState) || (… ? 'shell_only' : 'available')`
  unfoldable pub sync_state_of : (sync_state external_id profile_url last_text : String) → String
  sync_state_of sync_state external_id profile_url last_text =
      or_text (text_of (nullable_string x.js sync_state)) (
        if starts_with external_id "fallback-"
          || (not (truthy profile_url) && not (truthy (normalize_whitespace x.js last_text)))
        then "shell_only"
        else "available")

  unfoldable pub normalize_conversation :
      (account_id : String) (now : ℕ) → ConversationInput → Conversation
  normalize_conversation account_id now input =
      let profile_url = normalize_url x.js input.participant_profile_url in
      let participant_name = normalize_whitespace x.js (name_or input.participant_name) in
      let sent_at = to_date x.js input.last_at now in
      let external_id =
        conversation_external_id x.js account_id (or_text input.conversation_id input.id) in
      let thread_url = normalize_url x.js (or_text input.thread_url input.url) in
      record {
        id = template (account_id ∷ ":" ∷ external_id ∷ []);
        external_id = external_id;
        account_id = account_id;
        thread_url = text_or_null thread_url;
        participant_name = participant_name;
        participant_profile_url = text_or_null profile_url;
        participant_avatar_url = nullable_string x.js input.participant_avatar_url;
        last_message_at = sent_at;
        last_message_text = normalize_whitespace x.js input.last_text;
        last_message_sent_by_me =
            input.last_sent_by_me
            || (str_eq input.last_sender_id "__self__" || input.input_last_sent_by_me);
        sync_state = sync_state_of input.sync_state external_id profile_url input.last_text;
        message_count = number_or_zero input.message_count;
        last_resolved_at = optional_date input.last_resolved_at now;
        resolve_attempts = number_or_zero input.resolve_attempts;
        resolve_error = nullable_string x.js input.resolve_error;
        source = or_text input.source "linkedin";
        last_seen_at = now;
        sync_cursor = nullable_string x.js input.cursor;
        has_more_history = input.has_more_history;
        content_hash = stable_hash x.hashing (
            Json.object (
              text_field "accountId" account_id (
                text_field "externalId" external_id (
                  text_field "threadUrl" thread_url (
                    text_field "participantName" participant_name (
                      text_field "profileUrl" profile_url (
                        text_field "lastMessageText" input.last_text
                          (text_field "sentAt" (x.js.iso sent_at) Fields.end))))))));
      }
