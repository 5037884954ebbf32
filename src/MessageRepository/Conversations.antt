-- ===== src/MessageRepository/Conversations.antt =====
-- Upserts of conversations and their statistics. The database's `upsert`, `count`, `findFirst` and
-- `update` are arguments. A field that may be absent is `none` where it is; `present` fields also tell
-- an absent field from an empty one.
pub mod Preview
mod Columns
use linkedin_hyper_v.Prelude.{
  ℕ, ◌+◌, ◌-◌, ◌<◌, String, Bool, true, false, ◌||◌, ◌&&◌, not, Option, none, some, List, [], ◌∷◌,
  if◌then◌else◌, truthy, or_text, str_eq, starts_with, ltb,
}
use linkedin_hyper_v.Normalizer.{Script, normalize_whitespace, text_of, text_or_null}
use linkedin_hyper_v.MessageRepository.{Row, is_generic_conversation_name}
pub use Columns.*

abbrev text_given : Given → String
text_given Given.absent = ""
text_given (Given.given text) = text

abbrev change_given : Given → Option String
change_given Given.absent = none
change_given (Given.given text) = some text

abbrev pub or_number {ℓ} : {A : Type ℓ} → Option A → A → A
or_number none other = other
or_number (some n) other = n

abbrev points : Bool → ℕ → ℕ
points b n = if b then n else 0

-- 100 more than in the code, so that no score is below 0.
unfoldable pub compute_conversation_quality : Script → Data → ℕ
compute_conversation_quality js item =
    let name = normalize_whitespace js item.participant_name in
    points (truthy item.participant_profile_url) 50
    + points (truthy item.thread_url) 30
    + points (truthy item.last_message_text) 20
    + points (not (starts_with item.external_id "fallback-")) 25
    + points (ltb 0 (or_number item.message_count 0)) 30
    + points (str_eq item.sync_state "available") 20
    + points (str_eq item.sync_state "partial") 10
    + points (truthy name && not (is_generic_conversation_name js name)) 15
    + points (not (truthy (text_given item.replaced_by_conversation_id))) 100

abbrev pub if_text {ℓ} : {A : Type ℓ} → String → A → Option A
if_text text value = if truthy text then some value else none

module _ (js : Script) where
  abbrev pub quality_of : Data → ℕ
  quality_of item = or_number item.source_quality (compute_conversation_quality js item)

  unfoldable pub update_of : (now : ℕ) → Data → Changes
  update_of now item = record {
    participant_name = some item.participant_name;
    thread_url = text_or_null item.thread_url;
    participant_profile_url = some item.participant_profile_url;
    participant_avatar_url = some item.participant_avatar_url;
    last_message_at = if_text item.last_message_text item.last_message_at;
    last_message_text = if_text item.last_message_text item.last_message_text;
    last_message_sent_by_me = if_text item.last_message_text item.last_message_sent_by_me;
    sync_state = text_or_null item.sync_state;
    resolution_state = text_or_null (or_text item.resolution_state item.sync_state);
    message_count = item.message_count;
    message_count_canonical = item.message_count_canonical;
    last_resolved_at = item.last_resolved_at;
    resolve_attempts = item.resolve_attempts;
    resolve_error = change_given item.resolve_error;
    shell_reason = change_given item.shell_reason;
    replaced_by_conversation_id = change_given item.replaced_by_conversation_id;
    hidden_reason = change_given item.hidden_reason;
    source_quality = some (quality_of item);
    last_resolve_duration_ms = item.last_resolve_duration_ms;
    external_id = text_or_null item.external_id;
    content_hash = text_or_null item.content_hash;
    source = text_or_null item.source;
    last_seen_at = some (or_number item.last_seen_at now);
    sync_cursor = text_or_null item.sync_cursor;
    has_more_history = item.has_more_history;
    updated_at = some now;
  }

  unfoldable pub create_of : (now : ℕ) → Data → Conversation
  create_of now item = record {
    id = item.id;
    account_id = item.account_id;
    external_id = item.external_id;
    thread_url = item.thread_url;
    participant_name = item.participant_name;
    participant_profile_url = item.participant_profile_url;
    participant_avatar_url = item.participant_avatar_url;
    last_message_at = item.last_message_at;
    last_message_text = item.last_message_text;
    last_message_sent_by_me = item.last_message_sent_by_me;
    sync_state = or_text item.sync_state "shell_only";
    resolution_state = or_text (or_text item.resolution_state item.sync_state) "shell_only";
    message_count = or_number item.message_count 0;
    message_count_canonical = or_number item.message_count_canonical 0;
    last_resolved_at = item.last_resolved_at;
    resolve_attempts = or_number item.resolve_attempts 0;
    resolve_error = text_given item.resolve_error;
    shell_reason = text_given item.shell_reason;
    replaced_by_conversation_id = text_given item.replaced_by_conversation_id;
    hidden_reason = text_given item.hidden_reason;
    source_quality = quality_of item;
    last_resolve_duration_ms = item.last_resolve_duration_ms;
    content_hash = item.content_hash;
    source = or_text item.source "linkedin";
    last_seen_at = or_number item.last_seen_at now;
    sync_cursor = item.sync_cursor;
    has_more_history = or_number item.has_more_history false;
  }

-- What `refreshConversationStats` writes; `none` is a field that is left out.
pub record Stats : Type 0 where
  pub message_count : ℕ
  pub message_count_canonical : ℕ
  pub latest : Option Row

-- `upsert id update create`, reading the rows of messages that match (a count, and the last by
-- `sentAt` and `createdAt`), and the updates of statistics and of a conversation that is replaced.
pub record Prisma : Type 1 where
  pub State : Type 0
  pub find_conversation : String → State → Option Conversation
  pub upsert : String → Changes → Conversation → State → Conversation × State
  pub count : (Row → Bool) → State → ℕ
  pub find_latest : (Row → Bool) → State → Option Row
  pub write_stats : String → Stats → State → State
  pub move_messages : (source_id target_id : String) → State → State × ℕ
  pub refresh_dedupe_keys : String → State → State
  pub cleanup_duplicates : String → State → State × ℕ
  pub mark_replaced : (source_id target_id : String) → State → State

module _ (db : Prisma) where
  unfoldable pub upsert_conversation :
      (js : Script) (now : ℕ) → Data → db.State → Conversation × db.State
  upsert_conversation js now item state =
      db.upsert item.id (update_of js now item) (create_of js now item) state

  abbrev pub shown_in : (conversation_id : String) → Row → Bool
  shown_in conversation_id row =
      str_eq row.conversation_id conversation_id
      && (str_eq row.visibility_state "visible" && row.is_canonical)

  unfoldable pub refresh_conversation_stats : (conversation_id : String) → db.State → db.State
  refresh_conversation_stats conversation_id state =
      if truthy conversation_id
      then db.write_stats conversation_id
          record {
            message_count = db.count (shown_in conversation_id) state;
            message_count_canonical = db.count (shown_in conversation_id) state;
            latest = db.find_latest (shown_in conversation_id) state;
          }
          state
      else state

  -- Whether the two were merged, and how many messages moved and were hidden.
  pub record Merged : Type 0 where
    pub merged : Bool
    pub messages_moved : ℕ
    pub duplicates_quarantined : ℕ

  abbrev not_merged : Merged
  not_merged = record { merged = false; messages_moved = 0; duplicates_quarantined = 0 }

  abbrev merge_found : (source_id target_id : String) → db.State → Merged × db.State
  merge_found source_id target_id state =
      let (moved, count) = db.move_messages source_id target_id state in
      let (cleaned, hidden) =
        db.cleanup_duplicates target_id (db.refresh_dedupe_keys target_id moved) in
      (
        record { merged = true; messages_moved = count; duplicates_quarantined = hidden },
        db.mark_replaced source_id target_id (refresh_conversation_stats target_id cleaned),
      )

  abbrev merge_rows :
      (source target : Option Conversation) (source_id target_id : String)
      → db.State
      → Merged × db.State
  merge_rows none target source_id target_id state = (not_merged, state)
  merge_rows (some s) none source_id target_id state = (not_merged, state)
  merge_rows (some s) (some t) source_id target_id state = merge_found source_id target_id state

  unfoldable pub merge_conversation_into :
      (source_id target_id : String) → db.State → Merged × db.State
  merge_conversation_into source_id target_id state =
      if not (truthy source_id) || (not (truthy target_id) || str_eq source_id target_id)
      then (not_merged, state)
      else merge_rows (db.find_conversation source_id state) (db.find_conversation target_id state)
          source_id target_id state
