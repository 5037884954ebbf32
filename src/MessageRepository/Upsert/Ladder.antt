-- ===== src/MessageRepository/Upsert/Ladder.antt =====
-- The steps of `upsertMessage`: the row of an observed message is looked for by ever weaker signs, and
-- created if there is none. A time before 10 minutes after the epoch is taken as at least 0.
use linkedin_hyper_v.Prelude.{
  ℕ, ◌+◌, ◌-◌, String, Bool, true, false, ◌||◌, ◌&&◌, Option, none, some, if◌then◌else◌, truthy,
  str_eq, starts_with, leb,
}
use linkedin_hyper_v.Normalizer.{Script, text_of}
use linkedin_hyper_v.Normalizer.Keys.{Printing}
use linkedin_hyper_v.MessageRepository.{Row, or_id, normalize_message_text}
use linkedin_hyper_v.MessageRepository.Upsert.Data.{
  Observed, RowData, id_or_undefined, observation, durable_id, canonical_dedupe_key,
  build_update_data, durable_update, visible_update, create_data,
}
use linkedin_hyper_v.MessageRepository.Upsert.Conflicts.{
  Prisma, Result, same_text, legacy_match, resolve_conflict_target, update_message_safely,
  create_message_safely,
}

module _ (js : Script) (p : Printing) (now : ℕ) (o : Observed) where
  unfoldable pub legacy_update : (existing : Row) → RowData
  legacy_update existing =
      let d = build_update_data js p now o existing in
      record {
        conversation_id = o.conversation_id;
        account_id = o.account_id;
        external_id = id_or_undefined (text_of (durable_id js p now o));
        dedupe_key = id_or_undefined (canonical_dedupe_key js p now o);
        visibility_state = d.visibility_state;
        is_canonical = d.is_canonical;
        identity_confidence = d.identity_confidence;
        sender_confidence = d.sender_confidence;
        timestamp_confidence = d.timestamp_confidence;
        observed_at = d.observed_at;
        source_run_id = d.source_run_id;
        sender_id = d.sender_id;
        sender_name = d.sender_name;
        text = d.text;
        sent_at = d.sent_at;
        is_sent_by_me = d.is_sent_by_me;
        linkedin_message_id = d.linkedin_message_id;
        content_hash = d.content_hash;
        source = d.source;
        raw = d.raw;
      }

  -- `shouldUseOwnSendFuzzyMatch`
  abbrev pub is_own_send : Bool
  is_own_send =
      o.is_sent_by_me
      && (str_eq o.source "optimistic"
          || (starts_with (or_id o.external_id o.linkedin_message_id) "optimistic-"
              || str_eq o.sender_id "__self__"))

  abbrev pub by_key : Row → Bool
  by_key row =
      str_eq row.account_id o.account_id
      && (str_eq row.conversation_id o.conversation_id
          && same_text js (canonical_dedupe_key js p now o) row.dedupe_key)

  abbrev pub by_external : (id : String) → Row → Bool
  by_external id row = str_eq row.account_id o.account_id && same_text js id row.external_id

  abbrev pub by_hash : (hash : String) → Row → Bool
  by_hash hash row =
      str_eq row.conversation_id o.conversation_id && same_text js hash row.content_hash

  abbrev pub by_visible_identity : Row → Bool
  by_visible_identity row =
      str_eq row.conversation_id o.conversation_id
      && (str_eq row.sender_id o.sender_id && str_eq row.text (normalize_message_text js o.text))

  abbrev pub by_own_send : Row → Bool
  by_own_send row =
      str_eq row.conversation_id o.conversation_id
      && (str_eq row.sender_id "__self__"
          && (str_eq row.text (normalize_message_text js o.text)
              && (leb (o.sent_at - 600000) row.sent_at && leb row.sent_at (o.sent_at + 600000))))

  module _ (db : Prisma) where
    -- What the five searches and the legacy constraint find.
    abbrev pub key_row : db.State → Option Row
    key_row state =
        if truthy (canonical_dedupe_key js p now o) then db.find_first by_key state else none

    abbrev pub external_of : Option String → db.State → Option Row
    external_of none state = none
    external_of (some id) state = db.find_first (by_external id) state

    abbrev pub external_row : db.State → Option Row
    external_row state = external_of (durable_id js p now o) state

    abbrev pub hash_row : db.State → Option Row
    hash_row state =
        if truthy (text_of o.content_hash)
        then db.find_first (by_hash (text_of o.content_hash)) state
        else none

    abbrev pub visible_row : db.State → Option Row
    visible_row state =
        if truthy (normalize_message_text js o.text)
        then db.find_preferred by_visible_identity state
        else none

    abbrev pub own_row : db.State → Option Row
    own_row state = if is_own_send then db.find_first by_own_send state else none

    abbrev pub legacy_row : db.State → Option Row
    legacy_row state = db.find_unique (legacy_match js (create_data js p now o)) state

    abbrev pub again : Option Row → db.State → Result × db.State
    again none state = (Result.skipped, state)
    again (some row) state =
        (Result.saved row false, db.observe (observation js p now o) row.id state)

    -- A conflict that the creation throws again is looked up once more.
    abbrev pub caught : Result × db.State → Result × db.State
    caught (Result.threw true, state) =
        again (resolve_conflict_target js p now o db (create_data js p now o) none state) state
    caught (Result.threw false, state) = (Result.threw false, state)
    caught (Result.saved row created, state) = (Result.saved row created, state)
    caught (Result.skipped, state) = (Result.skipped, state)

    abbrev pub update_or :
        Option Row → (Row → RowData) → Result × db.State → db.State → Result × db.State
    update_or none d otherwise state = otherwise
    update_or (some row) d otherwise state = update_message_safely js p now o db row (d row) state

    unfoldable pub upsert_message : db.State → Result × db.State
    upsert_message state =
        update_or (key_row state) (build_update_data js p now o)
          (update_or (external_row state) (durable_update js p now o)
            (update_or (hash_row state) (durable_update js p now o)
              (update_or (visible_row state) (visible_update js p now o)
                (update_or (own_row state) (durable_update js p now o)
                  (update_or (legacy_row state) legacy_update
                    (caught (create_message_safely js p now o db (create_data js p now o) state))
                    state)
                  state)
                state)
              state)
            state)
          state
