-- ===== src/MessageRepository/Conversations/Columns.antt =====
-- The columns of a conversation, as they are given, stored and changed.
use linkedin_hyper_v.Prelude.{ℕ, String, Bool, Option}

-- A field of an object: absent, or there with its text, which may be `null`, as the empty text.
pub data Given : Type 0 where
  absent : Given
  given : String → Given

-- What `upsertConversation` is given.
pub record Data : Type 0 where
  pub id : String
  pub account_id : String
  pub participant_name : String
  pub thread_url : String
  pub participant_profile_url : String
  pub participant_avatar_url : String
  pub last_message_at : ℕ
  pub last_message_text : String
  pub last_message_sent_by_me : Bool
  pub sync_state : String
  pub resolution_state : String
  pub message_count : Option ℕ
  pub message_count_canonical : Option ℕ
  pub last_resolved_at : Option ℕ
  pub resolve_attempts : Option ℕ
  pub resolve_error : Given
  pub shell_reason : Given
  pub replaced_by_conversation_id : Given
  pub hidden_reason : Given
  pub source_quality : Option ℕ
  pub last_resolve_duration_ms : Option ℕ
  pub external_id : String
  pub content_hash : String
  pub source : String
  pub last_seen_at : Option ℕ
  pub sync_cursor : String
  pub has_more_history : Option Bool

-- The columns, `null` texts as empty ones.
pub record Conversation : Type 0 where
  pub id : String
  pub account_id : String
  pub external_id : String
  pub thread_url : String
  pub participant_name : String
  pub participant_profile_url : String
  pub participant_avatar_url : String
  pub last_message_at : ℕ
  pub last_message_text : String
  pub last_message_sent_by_me : Bool
  pub sync_state : String
  pub resolution_state : String
  pub message_count : ℕ
  pub message_count_canonical : ℕ
  pub last_resolved_at : Option ℕ
  pub resolve_attempts : ℕ
  pub resolve_error : String
  pub shell_reason : String
  pub replaced_by_conversation_id : String
  pub hidden_reason : String
  pub source_quality : ℕ
  pub last_resolve_duration_ms : Option ℕ
  pub content_hash : String
  pub source : String
  pub last_seen_at : ℕ
  pub sync_cursor : String
  pub has_more_history : Bool

-- The fields of an update: `none` is `undefined`, which changes nothing.
pub record Changes : Type 0 where
  pub participant_name : Option String
  pub thread_url : Option String
  pub participant_profile_url : Option String
  pub participant_avatar_url : Option String
  pub last_message_at : Option ℕ
  pub last_message_text : Option String
  pub last_message_sent_by_me : Option Bool
  pub sync_state : Option String
  pub resolution_state : Option String
  pub message_count : Option ℕ
  pub message_count_canonical : Option ℕ
  pub last_resolved_at : Option ℕ
  pub resolve_attempts : Option ℕ
  pub resolve_error : Option String
  pub shell_reason : Option String
  pub replaced_by_conversation_id : Option String
  pub hidden_reason : Option String
  pub source_quality : Option ℕ
  pub last_resolve_duration_ms : Option ℕ
  pub external_id : Option String
  pub content_hash : Option String
  pub source : Option String
  pub last_seen_at : Option ℕ
  pub sync_cursor : Option String
  pub has_more_history : Option Bool
  pub updated_at : Option ℕ
