-- ===== src/MessageRepository/UpsertTests.antt =====
-- Upserts into a table of one conversation, and one of a list of messages.
use linkedin_hyper_v.Prelude.{
  ℕ, ◌≡◌, refl, String, Bool, true, false, ◌&&◌, Option, none, some, List, [], ◌∷◌, if◌then◌else◌,
  truthy, not, any, arith,
}
use linkedin_hyper_v.Normalizer.Plain.{js, printing}
use linkedin_hyper_v.MessageRepository.{Row}
use linkedin_hyper_v.MessageRepository.Conversations.{
  Data, Given, Conversation, Changes, or_number, create_of, upsert_conversation,
}
use linkedin_hyper_v.MessageRepository.Conversations as Conversations
use linkedin_hyper_v.MessageRepository.Conversations.Preview.{
  UpsertLaws, preview, carried, upsert_conversation-preview,
}
use linkedin_hyper_v.MessageRepository.Upsert.Data.{
  Observed, RowData, id_text, create_data, canonical_dedupe_key,
}
use linkedin_hyper_v.MessageRepository.Upsert.Conflicts.{Attempt, Prisma}
use linkedin_hyper_v.MessageRepository.Upsert.Ladder.{upsert_message}
use linkedin_hyper_v.MessageRepository.Upsert.Creation.{
  is_created, was_written, missing, Searches, upsert_message-creates,
}
use linkedin_hyper_v.MessageRepository.Upsert.Signs.{has_sign}
use linkedin_hyper_v.MessageRepository.Upsert.Times.{Updates, Keeps, upsert_message-Keeps}

-- The changes, made to a conversation.
abbrev changed : Changes → Conversation → Conversation
changed u c = record {
  id = c.id;
  account_id = c.account_id;
  external_id = or_number u.external_id c.external_id;
  thread_url = or_number u.thread_url c.thread_url;
  participant_name = or_number u.participant_name c.participant_name;
  participant_profile_url = or_number u.participant_profile_url c.participant_profile_url;
  participant_avatar_url = or_number u.participant_avatar_url c.participant_avatar_url;
  last_message_at = or_number u.last_message_at c.last_message_at;
  last_message_text = or_number u.last_message_text c.last_message_text;
  last_message_sent_by_me = or_number u.last_message_sent_by_me c.last_message_sent_by_me;
  sync_state = or_number u.sync_state c.sync_state;
  resolution_state = or_number u.resolution_state c.resolution_state;
  message_count = or_number u.message_count c.message_count;
  message_count_canonical = or_number u.message_count_canonical c.message_count_canonical;
  last_resolved_at = c.last_resolved_at;
  resolve_attempts = or_number u.resolve_attempts c.resolve_attempts;
  resolve_error = or_number u.resolve_error c.resolve_error;
  shell_reason = or_number u.shell_reason c.shell_reason;
  replaced_by_conversation_id =
      or_number u.replaced_by_conversation_id c.replaced_by_conversation_id;
  hidden_reason = or_number u.hidden_reason c.hidden_reason;
  source_quality = or_number u.source_quality c.source_quality;
  last_resolve_duration_ms = c.last_resolve_duration_ms;
  content_hash = or_number u.content_hash c.content_hash;
  source = or_number u.source c.source;
  last_seen_at = or_number u.last_seen_at c.last_seen_at;
  sync_cursor = or_number u.sync_cursor c.sync_cursor;
  has_more_history = or_number u.has_more_history c.has_more_history;
}

abbrev put : Changes → Conversation → Option Conversation → Conversation
put u n none = n
put u n (some c) = changed u c

abbrev conversations : Conversations.Prisma
conversations = record {
  State = Option Conversation;
  find_conversation = λ id s. s;
  upsert = λ id u n s. (put u n s, some (put u n s));
  count = λ matches s. 0;
  find_latest = λ matches s. none;
  write_stats = λ id stats s. s;
  move_messages = λ source target s. (s, 0);
  refresh_dedupe_keys = λ id s. s;
  cleanup_duplicates = λ id s. (s, 0);
  mark_replaced = λ source target s. s;
}

put-some :
    (u : Changes) (n c : Conversation) (s : Option Conversation)
    → s ≡ some c
    → put u n s ≡ changed u c
put-some u n c s e = rw e refl

conversation_laws : UpsertLaws conversations
conversation_laws = record {
  at = λ id u n c s e. rw (put-some u n c s e) refl;
  text = λ id u n c s e. rw (put-some u n c s e) refl;
  mine = λ id u n c s e. rw (put-some u n c s e) refl;
  count = λ id u n c s e. rw (put-some u n c s e) refl;
}

abbrev item : (text : String) (at : ℕ) → Data
item text at = record {
  id = "me:t";
  account_id = "me";
  participant_name = "Ann";
  thread_url = "";
  participant_profile_url = "";
  participant_avatar_url = "";
  last_message_at = at;
  last_message_text = text;
  last_message_sent_by_me = false;
  sync_state = "";
  resolution_state = "";
  message_count = none;
  message_count_canonical = none;
  last_resolved_at = none;
  resolve_attempts = none;
  resolve_error = Given.absent;
  shell_reason = Given.absent;
  replaced_by_conversation_id = Given.absent;
  hidden_reason = Given.absent;
  source_quality = none;
  last_resolve_duration_ms = none;
  external_id = "t";
  content_hash = "";
  source = "";
  last_seen_at = none;
  sync_cursor = "";
  has_more_history = none;
}

-- A shell, seen an hour after a message.
abbrev known : Conversation
known = create_of js 1 (item "hi" 1)

upsert_conversation-preview_example :
    (preview (upsert_conversation conversations js 3600000 (item "" 3600000) (some known)).0
      ≡ (if truthy "" then carried (item "" 3600000) else preview known))
    × ((upsert_conversation conversations js 3600000 (item "" 3600000) (some known)).0.message_count
        ≡ or_number none known.message_count)
upsert_conversation-preview_example =
    upsert_conversation-preview conversations conversation_laws js 3600000 (item "" 3600000) known
      (some known) refl

abbrev row_of : (id : String) → RowData → Row
row_of id d = record {
  id = id;
  conversation_id = d.conversation_id;
  account_id = d.account_id;
  external_id = if truthy (id_text d.external_id) then some (id_text d.external_id) else none;
  dedupe_key = if truthy (id_text d.dedupe_key) then some (id_text d.dedupe_key) else none;
  visibility_state = d.visibility_state;
  is_canonical = d.is_canonical;
  identity_confidence = d.identity_confidence;
  sender_confidence = d.sender_confidence;
  timestamp_confidence = d.timestamp_confidence;
  observed_at = some d.observed_at;
  source_run_id = d.source_run_id;
  sender_id = d.sender_id;
  sender_name = d.sender_name;
  text = d.text;
  sent_at = d.sent_at;
  is_sent_by_me = d.is_sent_by_me;
  linkedin_message_id = d.linkedin_message_id;
  content_hash = d.content_hash;
  source = d.source;
  raw = d.raw;
  created_at = d.sent_at;
}

abbrev find : (Row → Bool) → List Row → Option Row
find matches [] = none
find matches (row ∷ rest) = if matches row then some row else find matches rest

abbrev messages : Prisma
messages = record {
  State = List Row;
  find_first = find;
  find_preferred = find;
  find_unique = find;
  update = λ id d s. (Attempt.written (row_of id d), row_of id d ∷ s);
  create = λ d s. (Attempt.written (row_of "new" d), row_of "new" d ∷ s);
  hide = λ id s. s;
  observe = λ o id s. s;
}

updates : Updates messages
updates = record {
  row = λ id d s. row_of id d;
  rest = λ id d s. row_of id d ∷ s;
  written = λ id d s. refl;
  same_id = λ id d s. refl;
  same_time = λ id d s. refl;
}

-- A message that no date was read of.
abbrev undated : (text : String) (sent_at : ℕ) → Observed
undated text sent_at = record {
  conversation_id = "t";
  account_id = "me";
  sender_id = "ann";
  sender_name = "Ann";
  text = text;
  sent_at = sent_at;
  is_sent_by_me = false;
  linkedin_message_id = none;
  external_id = none;
  dedupe_key = some "timestamp:1";
  content_hash = none;
  raw = none;
  source = "";
  visibility_state = "";
  is_canonical = true;
  identity_confidence = some 80;
  sender_confidence = some 95;
  timestamp_confidence = some 0;
  observed_at = none;
  source_run_id = none;
}

abbrev seen_before : Row
seen_before = row_of "7" (create_data js printing 1 (undated "hi" 1))

find_lem :
    (matches : Row → Bool) (rows : List Row) → missing (find matches rows) ≡ not (any matches rows)
find_lem matches [] = refl
find_lem matches (row ∷ rest) = ground (arith, find_lem matches rest)

abbrev searches : Searches messages
searches = record {
  rows = λ s. s;
  finds_first = find_lem;
  finds_preferred = find_lem;
  finds_unique = find_lem;
}

upsert_message-creates_example :
    is_created (upsert_message js printing 1 (undated "hi" 1) messages (seen_before ∷ [])).0 ≡ (
      not (has_sign js printing 1 (undated "hi" 1) (seen_before ∷ []))
      && was_written
          (messages.create (create_data js printing 1 (undated "hi" 1)) (seen_before ∷ [])).0)
upsert_message-creates_example =
    upsert_message-creates js printing 1 (undated "hi" 1) messages searches (seen_before ∷ [])

upsert_message-Keeps_example :
    Keeps js printing 2
      (undated "hi" 2)
      messages
      updates
      seen_before
      (upsert_message js printing 2 (undated "hi" 2) messages (seen_before ∷ [])).0
unfolding canonical_dedupe_key create_data
upsert_message-Keeps_example =
    upsert_message-Keeps js printing 2 (undated "hi" 2) messages updates seen_before
      (seen_before ∷ []) refl
