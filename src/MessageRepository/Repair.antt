-- ===== src/MessageRepository/Repair.antt =====
-- `refreshConversationDedupeKeys` and `repairMessageDuplicates`: keys that are computed anew, and
-- duplicates that are found over many conversations.
pub mod Ranking
use linkedin_hyper_v.Prelude.{
  ℕ, ◌+◌, ◌*◌, ◌≤◌, ◌<◌, String, Bool, true, false, ◌||◌, ◌&&◌, not, Option, none, some, List, [],
  ◌∷◌, ◌++◌, if◌then◌else◌, truthy, or_text, str_eq, template, starts_with, includes, TextMap,
  map_get, map_set, ltb, leb, ◌==◌, length,
}
use linkedin_hyper_v.Normalizer.{Script, is_durable_linked_in_message_id, text_of}
use linkedin_hyper_v.Normalizer.Keys.{When, Hint, Printing, build_message_dedupe_key}
use linkedin_hyper_v.Normalizer.Messages.{Raw}
use linkedin_hyper_v.MessageRepository.{
  Row, or_id, safe_confidence, normalize_message_text, rank_message_for_survival,
}
use linkedin_hyper_v.MessageRepository.Upsert.Data.{time_text_of, hint_of}

module _ (js : Script) (p : Printing) where
  unfoldable pub row_durable_id : Row → String
  row_durable_id row =
      if is_durable_linked_in_message_id js (or_id row.external_id row.linkedin_message_id)
      then or_id row.external_id row.linkedin_message_id
      else ""

  -- The key of a row as it is stored.
  unfoldable pub recomputed_key : (conversation_id : String) → Row → String
  recomputed_key conversation_id row = build_message_dedupe_key js p record {
    account_id = row.account_id;
    conversation_id = conversation_id;
    external_id = row_durable_id row;
    sender_id = row.sender_id;
    sender_name = row.sender_name;
    text = row.text;
    sent_at = When.instant row.sent_at;
    created_at = When.instant row.sent_at;
    time_text = time_text_of row.raw;
    position_hint = hint_of row.raw;
    is_optimistic =
        str_eq row.source "optimistic" || starts_with (text_of row.external_id) "optimistic-";
    source = or_text row.source "linkedin";
  }

  -- `update_key` writes a key, its errors being caught.
  module _ {S : Type 0} (update_key : (id key : String) → S → S) where
    unfoldable pub refresh_keys : (conversation_id : String) → List Row → S → ℕ × S
    refresh_keys conversation_id [] s = (0, s)
    refresh_keys conversation_id (row ∷ rest) s =
        let key = recomputed_key conversation_id row in
        let same = not (truthy key) || str_eq key (text_of row.dedupe_key) in
        let (count, s') =
          refresh_keys conversation_id rest (if same then s else update_key row.id key s) in
        ((if same then count else count + 1), s')

  unfoldable pub next_dedupe_key : Row → String
  next_dedupe_key row = or_text (text_of row.dedupe_key) (recomputed_key row.conversation_id row)

  unfoldable pub group_key : Row → String
  group_key row =
      template (row.account_id ∷ "|" ∷ row.conversation_id ∷ "|" ∷ next_dedupe_key row ∷ [])

  unfoldable pub weak_exact_key : Row → String
  weak_exact_key row = template (
      row.account_id
      ∷ "|"
      ∷ row.conversation_id
      ∷ "|"
      ∷ row.sender_id
      ∷ "|"
      ∷ normalize_message_text js row.text
      ∷ [])

  abbrev bucket_of : Option (List Row) → List Row
  bucket_of none = []
  bucket_of (some rows) = rows

  -- The rows by a key, in the order in which they are read.
  unfoldable pub group_by : (Row → String) → List Row → TextMap (List Row) → TextMap (List Row)
  group_by key [] groups = groups
  group_by key (row ∷ rest) groups =
      group_by key rest
        (map_set groups (key row) (bucket_of (map_get groups (key row)) ++ (row ∷ [])))

  -- What is compared of a row: it counts with its durable id only.
  unfoldable pub enriched_rank : Row → ℕ
  enriched_rank row = rank_message_for_survival js record {
    id = row.id;
    conversation_id = row.conversation_id;
    account_id = row.account_id;
    external_id = if truthy (row_durable_id row) then some (row_durable_id row) else none;
    dedupe_key = some (next_dedupe_key row);
    visibility_state = row.visibility_state;
    is_canonical = row.is_canonical;
    identity_confidence = row.identity_confidence;
    sender_confidence = row.sender_confidence;
    timestamp_confidence = row.timestamp_confidence;
    observed_at = row.observed_at;
    source_run_id = row.source_run_id;
    sender_id = row.sender_id;
    sender_name = row.sender_name;
    text = row.text;
    sent_at = row.sent_at;
    is_sent_by_me = row.is_sent_by_me;
    linkedin_message_id = if truthy (row_durable_id row) then some (row_durable_id row) else none;
    content_hash = row.content_hash;
    source = row.source;
    raw = row.raw;
    created_at = row.created_at;
  }

  -- Whether a row goes before another: by rank, then by creation.
  abbrev pub goes_before : Row → Row → Bool
  goes_before row other =
      ltb (enriched_rank other) (enriched_rank row)
      || (enriched_rank other == enriched_rank row && ltb row.created_at other.created_at)

  -- `sort`, which is stable.
  unfoldable pub insert_ranked : Row → List Row → List Row
  insert_ranked row [] = row ∷ []
  insert_ranked row (other ∷ rest) =
      if goes_before other row then other ∷ insert_ranked row rest else row ∷ (other ∷ rest)

  unfoldable pub sort_ranked : List Row → List Row
  sort_ranked [] = []
  sort_ranked (row ∷ rest) = insert_ranked row (sort_ranked rest)

  abbrev pub ids_of : List Row → List String
  ids_of [] = []
  ids_of (row ∷ rest) = row.id ∷ ids_of rest

  abbrev pub losers : List Row → List String
  losers [] = []
  losers (survivor ∷ rest) = ids_of rest

  -- The duplicates of the groups by key, and, besides them, those of the groups by sender and text.
  unfoldable pub key_duplicates : TextMap (List Row) → List String
  key_duplicates [] = []
  key_duplicates (group ∷ rest) = losers (sort_ranked group.1) ++ key_duplicates rest

  unfoldable pub add_new : List String → (duplicates : List String) → List String
  add_new [] duplicates = duplicates
  add_new (id ∷ rest) duplicates =
      add_new rest (if includes duplicates id then duplicates else duplicates ++ (id ∷ []))

  unfoldable pub weak_duplicates : TextMap (List Row) → (duplicates : List String) → List String
  weak_duplicates [] duplicates = duplicates
  weak_duplicates (group ∷ rest) duplicates =
      weak_duplicates rest (add_new (losers (sort_ranked group.1)) duplicates)

  unfoldable pub is_weak : Row → Bool
  is_weak row =
      ltb (safe_confidence (some row.identity_confidence) 0) 70
      || (ltb (safe_confidence (some row.sender_confidence) 0) 45
          || (leb (safe_confidence (some row.timestamp_confidence) 0) 0
              && (not (truthy row.sender_name) || str_eq row.sender_name "Unknown")))

  unfoldable pub weak_rows : (duplicates : List String) → List Row → List String
  weak_rows duplicates [] = []
  weak_rows duplicates (row ∷ rest) =
      let later = weak_rows duplicates rest in
      if is_weak row && not (includes duplicates row.id) then row.id ∷ later else later

  -- The rows that get a key.
  unfoldable pub key_updates : List Row → List (String × String)
  key_updates [] = []
  key_updates (row ∷ rest) =
      let later = key_updates rest in
      if not (truthy (text_of row.dedupe_key)) && truthy (next_dedupe_key row)
      then (row.id, next_dedupe_key row) ∷ later
      else later

  pub record Plan : Type 0 where
    pub updates : List (String × String)
    pub duplicates : List String
    pub quarantined : List String

  unfoldable pub plan_repair : List Row → Plan
  plan_repair rows =
      let by_key = key_duplicates (group_by group_key rows []) in
      let duplicates = weak_duplicates (group_by weak_exact_key rows []) by_key in
      record {
        updates = key_updates rows;
        duplicates = duplicates;
        quarantined = weak_rows duplicates rows;
      }
