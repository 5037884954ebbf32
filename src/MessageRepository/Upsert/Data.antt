-- ===== src/MessageRepository/Upsert/Data.antt =====
-- The values that `upsertMessage` writes.
mod Columns
use linkedin_hyper_v.Prelude.{
  ℕ, String, Bool, ◌||◌, ◌&&◌, Option, none, some, if◌then◌else◌, truthy, or_text, str_eq,
  starts_with, ltb,
}
use linkedin_hyper_v.Normalizer.{Script, is_durable_linked_in_message_id, text_of, text_or_null}
use linkedin_hyper_v.Normalizer.Json.{Json, Fields, stable_hash}
use linkedin_hyper_v.Normalizer.Keys.{When, Hint, Printing, text_field, build_message_dedupe_key}
use linkedin_hyper_v.Normalizer.Messages.{Raw}
use linkedin_hyper_v.MessageRepository.{Row, safe_confidence, or_id, normalize_message_text}
pub use Columns.*

abbrev pub id_text : Column → String
id_text Column.undefined = ""
id_text Column.null = ""
id_text (Column.id text) = text

abbrev pub id_or_null : String → Column
id_or_null text = if truthy text then Column.id text else Column.null

abbrev pub id_or_undefined : String → Column
id_or_undefined text = if truthy text then Column.id text else Column.undefined

-- `a || b || null`.
abbrev pub or_maybe {ℓ} : {A : Type ℓ} → Option A → Option A → Option A
or_maybe none other = other
or_maybe (some a) other = some a

abbrev pub time_text_of : Option Raw → String
time_text_of none = ""
time_text_of (some raw) = raw.time_text

abbrev pub hint_of : Option Raw → Hint
hint_of none = Hint.undefined
hint_of (some raw) = raw.position_hint

abbrev raw_json : Option Raw → Json
raw_json none = Json.null
raw_json (some raw) = raw.json

abbrev json_or_null : Option String → Json
json_or_null none = Json.null
json_or_null (some text) = Json.text text

module _ (js : Script) (p : Printing) (now : ℕ) (o : Observed) where
  abbrev pub observed : ℕ
  observed = elim o.observed_at [ none ↦ now | some t ↦ t ]

  abbrev pub visibility : String
  visibility = or_text o.visibility_state "visible"

  abbrev pub canonical : Bool
  canonical = o.is_canonical && str_eq visibility "visible"

  unfoldable pub confidence : Option ℕ → ℕ
  confidence value = safe_confidence value (if canonical then 100 else 0)

  abbrev given_id : String
  given_id = or_id o.external_id o.linkedin_message_id

  unfoldable pub durable_id : Option String
  durable_id = if is_durable_linked_in_message_id js given_id then some given_id else none

  unfoldable pub canonical_dedupe_key : String
  canonical_dedupe_key = or_text (text_of o.dedupe_key) (
      build_message_dedupe_key js p record {
        account_id = o.account_id;
        conversation_id = o.conversation_id;
        external_id = text_of durable_id;
        sender_id = o.sender_id;
        sender_name = o.sender_name;
        text = normalize_message_text js o.text;
        sent_at = When.instant o.sent_at;
        created_at = When.instant o.sent_at;
        time_text = time_text_of o.raw;
        position_hint = hint_of o.raw;
        is_optimistic = str_eq o.source "optimistic" || starts_with given_id "optimistic-";
        source = or_text o.source "linkedin";
      })

  unfoldable pub observation : Observation
  observation = record {
    account_id = o.account_id;
    conversation_id = o.conversation_id;
    external_id = durable_id;
    sender_id = o.sender_id;
    sender_name = o.sender_name;
    text = normalize_message_text js o.text;
    observed_at = observed;
    sent_at = o.sent_at;
    identity_confidence = confidence o.identity_confidence;
    sender_confidence = confidence o.sender_confidence;
    timestamp_confidence = confidence o.timestamp_confidence;
    visibility_state = if str_eq visibility "visible" then "visible" else "pending_repair";
    content_hash = stable_hash p.hashing (
        Json.object (
          text_field "accountId" o.account_id (
            text_field "conversationId" o.conversation_id (
              Fields.field "externalId" (json_or_null durable_id) (
                text_field "senderId" o.sender_id (
                  text_field "senderName" o.sender_name (
                    text_field "text" (normalize_message_text js o.text) (
                      text_field "source" (or_text o.source "linkedin")
                        (Fields.field "raw" (raw_json o.raw) Fields.end)))))))));
    payload = o.raw;
    source = or_text o.source "linkedin";
  }

  -- The time of a row that is there gives way only to one that was read.
  unfoldable pub build_update_data : (existing : Row) → RowData
  build_update_data existing = record {
    conversation_id = o.conversation_id;
    account_id = o.account_id;
    external_id =
        id_or_null
          (or_text (text_of o.external_id) (or_id o.linkedin_message_id existing.external_id));
    dedupe_key = id_or_null (or_text canonical_dedupe_key (text_of existing.dedupe_key));
    visibility_state = visibility;
    is_canonical = canonical;
    identity_confidence = confidence o.identity_confidence;
    sender_confidence = confidence o.sender_confidence;
    timestamp_confidence = confidence o.timestamp_confidence;
    observed_at = observed;
    source_run_id = text_or_null (or_id o.source_run_id existing.source_run_id);
    sender_id = o.sender_id;
    sender_name = o.sender_name;
    text = normalize_message_text js o.text;
    sent_at = if ltb 0 (confidence o.timestamp_confidence) then o.sent_at else existing.sent_at;
    is_sent_by_me = o.is_sent_by_me;
    linkedin_message_id = text_or_null (or_id o.linkedin_message_id existing.linkedin_message_id);
    content_hash = text_or_null (or_id o.content_hash existing.content_hash);
    source = or_text o.source (or_text existing.source "linkedin");
    raw = or_maybe o.raw existing.raw;
  }

  -- The same with other ids, as the later steps write them.
  abbrev pub with_ids : (linkedin_message_id external_id : Option String) → RowData → RowData
  with_ids linkedin_message_id external_id d = record {
    conversation_id = d.conversation_id;
    account_id = d.account_id;
    external_id = id_or_null (text_of external_id);
    dedupe_key = d.dedupe_key;
    visibility_state = d.visibility_state;
    is_canonical = d.is_canonical;
    identity_confidence = d.identity_confidence;
    sender_confidence = d.sender_confidence;
    timestamp_confidence = d.timestamp_confidence;
    observed_at = d.observed_at;
    source_run_id = d.source_run_id;
    sender_id = d.sender_id;
    sender_name = d.sender_name;
    text = d.text;
    sent_at = d.sent_at;
    is_sent_by_me = d.is_sent_by_me;
    linkedin_message_id = linkedin_message_id;
    content_hash = d.content_hash;
    source = d.source;
    raw = d.raw;
  }

  unfoldable pub durable_update : (existing : Row) → RowData
  durable_update existing =
      with_ids (or_maybe durable_id existing.linkedin_message_id)
        (or_maybe durable_id existing.external_id) (build_update_data existing)

  -- A row with a durable id keeps it.
  unfoldable pub visible_update : (existing : Row) → RowData
  visible_update existing =
      if is_durable_linked_in_message_id js
        (or_id existing.external_id existing.linkedin_message_id)
      then with_ids existing.linkedin_message_id existing.external_id (build_update_data existing)
      else durable_update existing

  unfoldable pub create_data : RowData
  create_data = record {
    conversation_id = o.conversation_id;
    account_id = o.account_id;
    external_id = id_or_null (text_of durable_id);
    dedupe_key = id_or_null canonical_dedupe_key;
    visibility_state = visibility;
    is_canonical = canonical;
    identity_confidence = confidence o.identity_confidence;
    sender_confidence = confidence o.sender_confidence;
    timestamp_confidence = confidence o.timestamp_confidence;
    observed_at = observed;
    source_run_id = o.source_run_id;
    sender_id = o.sender_id;
    sender_name = o.sender_name;
    text = normalize_message_text js o.text;
    sent_at = o.sent_at;
    is_sent_by_me = o.is_sent_by_me;
    linkedin_message_id = durable_id;
    content_hash = o.content_hash;
    source = or_text o.source "linkedin";
    raw = o.raw;
  }
