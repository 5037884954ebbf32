-- ===== src/Normalizer/Activity.antt =====
-- Connections, invitations, notifications and posts as they are stored. A field of an input that is
-- missing is the empty text; `raw` is `input.raw || input`.
use linkedin_hyper_v.Prelude.{ℕ, String, ◌||◌, Option, none, some, if◌then◌else◌, truthy, or_text}
use linkedin_hyper_v.Normalizer.{
  Script, normalize_whitespace, normalize_url, nullable_string, to_date, text_or_null,
}
use linkedin_hyper_v.Normalizer.Json.{Json, Fields, stable_hash}
use linkedin_hyper_v.Normalizer.Keys.{text_field}
use linkedin_hyper_v.Normalizer.Records.{
  ProfileInput, Profile, Text, normalize_profile, optional_date, json_of,
}

pub record ConnectionInput : Type 0 where
  pub person : ProfileInput
  pub connected_at : String
  pub status : String
  pub raw : Json

pub record Connection : Type 0 where
  pub account_id : String
  pub profile_url : String
  pub name : String
  pub headline : Option String
  pub connected_at : Option ℕ
  pub status : String
  pub source : String
  pub raw : Json
  pub content_hash : String
  pub profile : Profile

pub record InvitationInput : Type 0 where
  pub person : ProfileInput
  pub note : String
  pub message : String
  pub direction : String
  pub status : String
  pub sent_at : String
  pub received_at : String
  pub raw : Json

pub record Invitation : Type 0 where
  pub account_id : String
  pub profile_url : String
  pub name : String
  pub note : Option String
  pub direction : String
  pub status : String
  pub sent_at : Option ℕ
  pub received_at : Option ℕ
  pub source : String
  pub raw : Json
  pub content_hash : String
  pub profile : Profile

pub record NotificationInput : Type 0 where
  pub occurred_at : String
  pub timestamp : String
  pub title : String
  pub kind : String
  pub text : String
  pub message : String
  pub url : String
  pub target_profile_url : String
  pub target_name : String
  pub external_id : String
  pub id : String
  pub seen_at : String
  pub source : String
  pub raw : Json

-- `kind` is the field `type`.
pub record Notification : Type 0 where
  pub account_id : String
  pub external_id : Option String
  pub kind : String
  pub title : String
  pub text : Option String
  pub url : Option String
  pub occurred_at : ℕ
  pub seen_at : Option ℕ
  pub source : String
  pub raw : Json
  pub content_hash : String
  pub profile : Option Profile

pub record PostInput : Type 0 where
  pub posted_at : String
  pub timestamp : String
  pub author_url : String
  pub profile_url : String
  pub text : String
  pub message : String
  pub external_id : String
  pub id : String
  pub author_name : String
  pub name : String
  pub url : String
  pub source : String
  pub raw : Json

pub record Post : Type 0 where
  pub account_id : String
  pub external_id : Option String
  pub author_name : String
  pub author_url : Option String
  pub text : Option String
  pub url : Option String
  pub posted_at : Option ℕ
  pub source : String
  pub raw : Json
  pub content_hash : String

-- A profile's input of which only the URL, the name and the source are given.
abbrev target_of : NotificationInput → ProfileInput
target_of input = record {
  profile_url = input.target_profile_url;
  url = "";
  public_identifier = "";
  name = input.target_name;
  participant_name = "";
  external_id = "";
  id = "";
  headline = "";
  location = "";
  avatar_url = "";
  company = "";
  source = or_text input.source "linkedin";
  raw = Json.object (
      text_field "profileUrl" input.target_profile_url (
        text_field "name" input.target_name
          (text_field "source" (or_text input.source "linkedin") Fields.end)));
}

abbrev iso_or_empty : Script → Option ℕ → String
iso_or_empty js none = ""
iso_or_empty js (some t) = js.iso t

module _ (x : Text) where
  unfoldable pub normalize_connection :
      (account_id : String) (now : ℕ) → ConnectionInput → Connection
  normalize_connection account_id now input =
      let profile = normalize_profile x account_id input.person in
      record {
        account_id = account_id;
        profile_url = profile.profile_url;
        name = profile.name;
        headline = nullable_string x.js input.person.headline;
        connected_at = optional_date x input.connected_at now;
        status = or_text input.status "connected";
        source = or_text input.person.source "linkedin";
        raw = input.raw;
        content_hash = stable_hash x.hashing (
            Json.object (
              text_field "accountId" account_id (
                text_field "profileUrl" profile.profile_url (
                  text_field "name" profile.name
                    (text_field "status" (or_text input.status "connected") Fields.end)))));
        profile = profile;
      }

  unfoldable pub normalize_invitation :
      (account_id : String) (now : ℕ) → InvitationInput → Invitation
  normalize_invitation account_id now input =
      let profile = normalize_profile x account_id input.person in
      record {
        account_id = account_id;
        profile_url = profile.profile_url;
        name = profile.name;
        note = nullable_string x.js (or_text input.note input.message);
        direction = or_text input.direction "sent";
        status = or_text input.status "pending";
        sent_at = optional_date x input.sent_at now;
        received_at = optional_date x input.received_at now;
        source = or_text input.person.source "linkedin";
        raw = input.raw;
        content_hash = stable_hash x.hashing (
            Json.object (
              text_field "accountId" account_id (
                text_field "profileUrl" profile.profile_url (
                  text_field "direction" (or_text input.direction "sent") (
                    text_field "status" (or_text input.status "pending")
                      (text_field "note" (or_text input.note input.message) Fields.end))))));
        profile = profile;
      }

  unfoldable pub normalize_notification :
      (account_id : String) (now : ℕ) → NotificationInput → Notification
  normalize_notification account_id now input =
      let occurred_at = to_date x.js (or_text input.occurred_at input.timestamp) now in
      let title =
        normalize_whitespace x.js (or_text input.title (or_text input.kind "LinkedIn activity")) in
      let text = nullable_string x.js (or_text input.text input.message) in
      let url = normalize_url x.js (or_text input.url input.target_profile_url) in
      record {
        account_id = account_id;
        external_id = nullable_string x.js (or_text input.external_id input.id);
        kind = or_text input.kind "activity";
        title = title;
        text = text;
        url = text_or_null url;
        occurred_at = occurred_at;
        seen_at = optional_date x input.seen_at now;
        source = or_text input.source "linkedin";
        raw = input.raw;
        content_hash = stable_hash x.hashing (
            Json.object (
              text_field "accountId" account_id (
                text_field "type" (or_text input.kind "activity") (
                  text_field "title" title (
                    Fields.field "text" (json_of text) (
                      text_field "url" url
                        (text_field "occurredAt" (x.js.iso occurred_at) Fields.end)))))));
        profile =
            if truthy input.target_profile_url || truthy input.target_name
            then some (normalize_profile x account_id (target_of input))
            else none;
      }

  unfoldable pub normalize_post : (account_id : String) (now : ℕ) → PostInput → Post
  normalize_post account_id now input =
      let posted_at = optional_date x (or_text input.posted_at input.timestamp) now in
      let author_url = normalize_url x.js (or_text input.author_url input.profile_url) in
      let text = nullable_string x.js (or_text input.text input.message) in
      record {
        account_id = account_id;
        external_id = nullable_string x.js (or_text input.external_id input.id);
        author_name =
            normalize_whitespace x.js (or_text input.author_name (or_text input.name "Unknown"));
        author_url = text_or_null author_url;
        text = text;
        url = nullable_string x.js (normalize_url x.js input.url);
        posted_at = posted_at;
        source = or_text input.source "linkedin";
        raw = input.raw;
        content_hash = stable_hash x.hashing (
            Json.object (
              text_field "accountId" account_id (
                text_field "externalId" (or_text input.external_id input.id) (
                  text_field "authorUrl" author_url (
                    Fields.field "text" (json_of text)
                      (text_field "postedAt" (iso_or_empty x.js posted_at) Fields.end))))));
      }
