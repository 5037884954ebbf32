-- ===== src/MessageRepository/Upsert/Conflicts.antt =====
-- What `upsertMessage` does when a write breaks a unique constraint.
use linkedin_hyper_v.Prelude.{
  ℕ, ◌==◌, max, String, Bool, true, false, ◌&&◌, not, Option, none, some, if◌then◌else◌, truthy,
  or_text, str_eq,
}
use linkedin_hyper_v.Normalizer.{Script, is_durable_linked_in_message_id, text_of, text_or_null}
use linkedin_hyper_v.Normalizer.Keys.{Printing}
use linkedin_hyper_v.MessageRepository.{Row, safe_confidence, or_id}
use linkedin_hyper_v.MessageRepository.Upsert.Data.{
  Observed, RowData, Observation, id_text, id_or_null, or_maybe, observation,
}

-- The answer of a write: the row, a broken unique constraint (P2002), or another error.
pub data Attempt : Type 0 where
  written : Row → Attempt
  conflict : Attempt
  failed : Attempt

-- `find_first` and `find_unique` answer a row that matches; `find_preferred` the one that is first by
-- `externalId` descending and `createdAt`. `hide` is the update to quarantined, whose errors are
-- caught, as are those of `observe`, and those of `find_unique` in a conflict.
pub record Prisma : Type 1 where
  pub State : Type 0
  pub find_first : (Row → Bool) → State → Option Row
  pub find_preferred : (Row → Bool) → State → Option Row
  pub find_unique : (Row → Bool) → State → Option Row
  pub update : (id : String) → RowData → State → Attempt × State
  pub create : RowData → State → Attempt × State
  pub hide : (id : String) → State → State
  pub observe : Observation → (message_id : String) → State → State

-- A row and whether it was created, `null`, or an error, which may be P2002.
pub data Result : Type 0 where
  saved : Row → (created : Bool) → Result
  skipped : Result
  threw : (conflict : Bool) → Result

module _ (js : Script) where
  abbrev not_id : Option String → Row → Bool
  not_id none row = true
  not_id (some excluded) row = not (str_eq row.id excluded)

  abbrev final_id : RowData → String
  final_id d = or_text (id_text d.external_id) (text_of d.linkedin_message_id)

  abbrev pub same_text : String → Option String → Bool
  same_text text none = false
  same_text text (some other) = str_eq other text

  abbrev pub legacy_match : RowData → Row → Bool
  legacy_match d row =
      str_eq row.conversation_id d.conversation_id
      && (row.sent_at == d.sent_at && str_eq row.text d.text)

  abbrev unless_id : Option String → Option Row → Option Row
  unless_id excluded none = none
  unless_id excluded (some row) = if not_id excluded row then some row else none

module _ (js : Script) (p : Printing) (now : ℕ) (o : Observed) (db : Prisma) where
  unfoldable pub resolve_conflict_target :
      RowData → (excluded : Option String) → db.State → Option Row
  resolve_conflict_target d excluded state =
      or_maybe
        (if truthy (id_text d.dedupe_key)
          then db.find_first
              (λ row.
                str_eq row.account_id o.account_id
                && (str_eq row.conversation_id d.conversation_id
                    && (same_text js (id_text d.dedupe_key) row.dedupe_key
                        && not_id js excluded row)))
              state
          else none)
        (or_maybe
          (if is_durable_linked_in_message_id js (final_id js d)
            then db.find_first
                (λ row.
                  str_eq row.account_id o.account_id
                  && (same_text js (final_id js d) row.external_id && not_id js excluded row))
                state
            else none)
          (unless_id js excluded (db.find_unique (legacy_match js d) state)))

  abbrev own_confidence : Option Row → (Row → ℕ) → ℕ
  own_confidence none f = 0
  own_confidence (some row) f = safe_confidence (some (f row)) 0

  abbrev best : ℕ → ℕ → ℕ → ℕ
  best a b c = max (max (safe_confidence (some a) 0) (safe_confidence (some b) 0)) c

  abbrev own_id : Option Row → (Row → Option String) → Option String
  own_id none f = none
  own_id (some row) f = f row

  abbrev own_source : Option Row → String
  own_source none = ""
  own_source (some row) = row.source

  abbrev own_raw {ℓ} : {A : Type ℓ} → Option Row → (Row → Option A) → Option A
  own_raw none f = none
  own_raw (some row) f = f row

  unfoldable pub merged_data : (primary : Option Row) → RowData → (target : Row) → RowData
  merged_data primary d target = record {
    conversation_id = or_text d.conversation_id target.conversation_id;
    account_id = or_text d.account_id target.account_id;
    external_id = id_or_null (
        or_text (id_text d.external_id)
          (or_id target.external_id (own_id primary (λ row. row.external_id))));
    dedupe_key = id_or_null (
        or_text (id_text d.dedupe_key)
          (or_id target.dedupe_key (own_id primary (λ row. row.dedupe_key))));
    visibility_state = or_text d.visibility_state (or_text target.visibility_state "visible");
    is_canonical = d.is_canonical && target.is_canonical;
    identity_confidence =
        best d.identity_confidence target.identity_confidence
          (own_confidence primary (λ row. row.identity_confidence));
    sender_confidence =
        best d.sender_confidence target.sender_confidence
          (own_confidence primary (λ row. row.sender_confidence));
    timestamp_confidence =
        best d.timestamp_confidence target.timestamp_confidence
          (own_confidence primary (λ row. row.timestamp_confidence));
    observed_at = d.observed_at;
    source_run_id = text_or_null (
        or_text (text_of d.source_run_id)
          (or_id target.source_run_id (own_id primary (λ row. row.source_run_id))));
    sender_id = or_text d.sender_id target.sender_id;
    sender_name = or_text d.sender_name target.sender_name;
    text = or_text d.text target.text;
    sent_at = d.sent_at;
    is_sent_by_me = d.is_sent_by_me;
    linkedin_message_id = text_or_null (
        or_text (text_of d.linkedin_message_id)
          (or_id target.linkedin_message_id (own_id primary (λ row. row.linkedin_message_id))));
    content_hash = text_or_null (
        or_text (text_of d.content_hash)
          (or_id target.content_hash (own_id primary (λ row. row.content_hash))));
    source = or_text d.source (or_text target.source (or_text (own_source primary) "linkedin"));
    raw = or_maybe d.raw (or_maybe target.raw (own_raw primary (λ row. row.raw)));
  }

  -- The row that is hidden when a second conflict is met.
  abbrev hide_rest : (primary : Option Row) (target secondary : Row) → db.State → db.State
  hide_rest none target secondary state =
      if str_eq target.id secondary.id then state else db.hide target.id state
  hide_rest (some row) target secondary state =
      if str_eq row.id secondary.id
      then (if str_eq target.id secondary.id then state else db.hide target.id state)
      else db.hide row.id state

  abbrev hide_primary : (primary : Option Row) (target : Row) → db.State → db.State
  hide_primary none target state = state
  hide_primary (some row) target state =
      if str_eq row.id target.id then state else db.hide row.id state

  abbrev pub second :
      (primary : Option Row) (target : Row) → Option Row → db.State → Result × db.State
  second primary target none state = (Result.threw true, state)
  second primary target (some other) state = (
    Result.saved other false,
    hide_rest primary target other (db.observe (observation js p now o) other.id state),
  )

  abbrev pub after_merge :
      (primary : Option Row) (d : RowData) (target : Row) → Attempt × db.State → Result × db.State
  after_merge primary d target (Attempt.written row, state) = (
    Result.saved row false,
    db.observe (observation js p now o) row.id (hide_primary primary target state),
  )
  after_merge primary d target (Attempt.conflict, state) =
      second primary target
        (resolve_conflict_target (merged_data primary d target) (some target.id) state) state
  after_merge primary d target (Attempt.failed, state) = (Result.threw false, state)

  abbrev pub merge_with :
      (primary : Option Row) (d : RowData) → Option Row → db.State → Result × db.State
  merge_with primary d none state = (Result.threw true, state)
  merge_with primary d (some target) state =
      after_merge primary d target (db.update target.id (merged_data primary d target) state)

  abbrev id_of : Option Row → Option String
  id_of none = none
  id_of (some row) = some row.id

  -- After a conflict; without a target the error is thrown again.
  unfoldable pub merge_conflict_record :
      (primary : Option Row) → RowData → db.State → Result × db.State
  merge_conflict_record primary d state =
      merge_with primary d (resolve_conflict_target d (id_of primary) state) state

  abbrev pub after_update : (existing : Row) (d : RowData) → Attempt × db.State → Result × db.State
  after_update existing d (Attempt.written row, state) =
      (Result.saved row false, db.observe (observation js p now o) row.id state)
  after_update existing d (Attempt.conflict, state) = merge_conflict_record (some existing) d state
  after_update existing d (Attempt.failed, state) = (Result.threw false, state)

  unfoldable pub update_message_safely : (existing : Row) → RowData → db.State → Result × db.State
  update_message_safely existing d state = after_update existing d (db.update existing.id d state)

  abbrev pub after_create : RowData → Attempt × db.State → Result × db.State
  after_create d (Attempt.written row, state) =
      (Result.saved row true, db.observe (observation js p now o) row.id state)
  after_create d (Attempt.conflict, state) = merge_conflict_record none d state
  after_create d (Attempt.failed, state) = (Result.threw false, state)

  unfoldable pub create_message_safely : RowData → db.State → Result × db.State
  create_message_safely d state = after_create d (db.create d state)
