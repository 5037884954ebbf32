-- ===== src/MessageRepository/Upsert/Creation.antt =====
-- When `upsertMessage` creates a row, and what it makes of one that is there.
use linkedin_hyper_v.Prelude.{
  ℕ, ◌≡◌, refl, ◌∙◌, String, Bool, true, false, ◌&&◌, not, Option, none, some, List, any, arith,
  truthy,
}
use linkedin_hyper_v.Normalizer.{Script, text_of}
use linkedin_hyper_v.Normalizer.Keys.{Printing}
use linkedin_hyper_v.MessageRepository.{Row, normalize_message_text}
use linkedin_hyper_v.MessageRepository.Upsert.Data.{
  Observed, RowData, durable_id, canonical_dedupe_key, create_data, build_update_data,
  durable_update, visible_update,
}
use linkedin_hyper_v.MessageRepository.Upsert.Conflicts.{
  Attempt, Prisma, Result, legacy_match, after_update, after_merge, merge_with, second,
  after_create, resolve_conflict_target, merged_data, merge_conflict_record, update_message_safely,
  create_message_safely,
}
use linkedin_hyper_v.MessageRepository.Upsert.Ladder.{
  again, by_key, by_external, by_hash, by_visible_identity, by_own_send, external_of, key_row,
  external_row, hash_row, visible_row, own_row, legacy_row, caught, update_or, legacy_update,
  upsert_message,
}
use linkedin_hyper_v.MessageRepository.Upsert.Signs.{
  same_text_lem, any_same, has_key, has_external, has_hash, has_sender_and_text, has_own_send,
  has_time_and_text, any_external, is_self_send, has_sign,
}

abbrev pub is_created : Result → Bool
is_created (Result.saved row created) = created
is_created Result.skipped = false
is_created (Result.threw conflict) = false

abbrev pub was_written : Attempt → Bool
was_written (Attempt.written row) = true
was_written Attempt.conflict = false
was_written Attempt.failed = false

abbrev pub missing : Option Row → Bool
missing none = true
missing (some row) = false

module _ (js : Script) (p : Printing) (now : ℕ) (o : Observed) (db : Prisma) where
  second-kept :
      (primary : Option Row) (target : Row) (other : Option Row) (s : db.State)
      → is_created (second js p now o db primary target other s).0 ≡ false
  second-kept primary target none s = refl
  second-kept primary target (some row) s = refl

  after_merge-kept :
      (primary : Option Row) (d : RowData) (target : Row) (a : Attempt) (s : db.State)
      → is_created (after_merge js p now o db primary d target (a, s)).0 ≡ false
  after_merge-kept primary d target (Attempt.written row) s = refl
  after_merge-kept primary d target Attempt.conflict s = second-kept primary target _ s
  after_merge-kept primary d target Attempt.failed s = refl

  merge_with-kept :
      (primary : Option Row) (d : RowData) (target : Option Row) (s : db.State)
      → is_created (merge_with js p now o db primary d target s).0 ≡ false
  merge_with-kept primary d none s = refl
  merge_with-kept primary d (some target) s =
      let (a, s') = db.update target.id (merged_data js p now o db primary d target) s in
      after_merge-kept primary d target a s'

  merge-kept :
      (primary : Option Row) (d : RowData) (s : db.State)
      → is_created (merge_conflict_record js p now o db primary d s).0 ≡ false
  unfolding merge_conflict_record
  merge-kept primary d s = merge_with-kept primary d _ s

  after_update-kept :
      (existing : Row) (d : RowData) (a : Attempt) (s : db.State)
      → is_created (after_update js p now o db existing d (a, s)).0 ≡ false
  after_update-kept existing d (Attempt.written row) s = refl
  after_update-kept existing d Attempt.conflict s = merge-kept (some existing) d s
  after_update-kept existing d Attempt.failed s = refl

  update-kept :
      (existing : Row) (d : RowData) (s : db.State)
      → is_created (update_message_safely js p now o db existing d s).0 ≡ false
  unfolding update_message_safely
  update-kept existing d s =
      let (a, s') = db.update existing.id d s in after_update-kept existing d a s'

  after_create-created :
      (d : RowData) (a : Attempt) (s : db.State)
      → is_created (after_create js p now o db d (a, s)).0 ≡ was_written a
  after_create-created d (Attempt.written row) s = refl
  after_create-created d Attempt.conflict s = merge-kept none d s
  after_create-created d Attempt.failed s = refl

  again-kept :
      (target : Option Row) (s : db.State) → is_created (again js p now o db target s).0 ≡ false
  again-kept none s = refl
  again-kept (some row) s = refl

  caught-created :
      (r : Result) (s : db.State) → is_created (caught js p now o db (r, s)).0 ≡ is_created r
  caught-created (Result.threw true) s =
      again-kept (resolve_conflict_target js p now o db (create_data js p now o) none s) s
  caught-created (Result.threw false) s = refl
  caught-created (Result.saved row created) s = refl
  caught-created Result.skipped s = refl

  step :
      (otherwise : Result × db.State) (b : Bool) (found : Option Row) (d : Row → RowData)
      (s : db.State)
      → is_created otherwise.0 ≡ b
      → is_created (update_or js p now o db found d otherwise s).0 ≡ (missing found && b)
  step otherwise b none d s e = e
  step otherwise b (some row) d s e = update-kept row (d row) s

  create-created :
      (s : db.State)
      → is_created
          (caught js p now o db (create_message_safely js p now o db (create_data js p now o) s)).0
        ≡ was_written (db.create (create_data js p now o) s).0
  unfolding create_message_safely
  create-created s =
      let (a, s') = db.create (create_data js p now o) s in
      let (r, t) = after_create js p now o db (create_data js p now o) (a, s') in
      caught-created r t ∙ after_create-created (create_data js p now o) a s'

  creates_if_missing :
      (state : db.State)
      → is_created (upsert_message js p now o db state).0 ≡ (
          missing (key_row js p now o db state)
          && (missing (external_row js p now o db state)
              && (missing (hash_row js p now o db state)
                  && (missing (visible_row js p now o db state)
                      && (missing (own_row js p now o db state)
                          && (missing (legacy_row js p now o db state)
                              && was_written (db.create (create_data js p now o) state).0))))))
  unfolding upsert_message
  creates_if_missing state =
      step _ _ (key_row js p now o db state) (build_update_data js p now o) state (
        step _ _ (external_row js p now o db state) (durable_update js p now o) state (
          step _ _ (hash_row js p now o db state) (durable_update js p now o) state (
            step _ _ (visible_row js p now o db state) (visible_update js p now o) state (
              step _ _ (own_row js p now o db state) (durable_update js p now o) state (
                step _ _ (legacy_row js p now o db state) (legacy_update js p now o) state
                  (create-created state))))))

-- What is relied on of the searches: one finds a row exactly if some row of the table matches.
pub record Searches (db : Prisma) : Type 0 where
  pub rows : db.State → List Row
  pub finds_first :
      (matches : Row → Bool) (s : db.State)
      → missing (db.find_first matches s) ≡ not (any matches (rows s))
  pub finds_preferred :
      (matches : Row → Bool) (s : db.State)
      → missing (db.find_preferred matches s) ≡ not (any matches (rows s))
  pub finds_unique :
      (matches : Row → Bool) (s : db.State)
      → missing (db.find_unique matches s) ≡ not (any matches (rows s))

module _ (js : Script) (p : Printing) (now : ℕ) (o : Observed) (db : Prisma)
    (found : Searches db) where
  key_row_lem :
      (s : db.State)
      → missing (key_row js p now o db s)
        ≡ not (truthy (canonical_dedupe_key js p now o) && any (has_key js p now o) (found.rows s))
  key_row_lem s = ground (
    arith,
    found.finds_first (by_key js p now o) s,
    any_same (by_key js p now o) (has_key js p now o) (found.rows s)
        (λ row. ground (arith, same_text_lem js (canonical_dedupe_key js p now o) row.dedupe_key)),
  )

  external_of_lem :
      (id : Option String) (s : db.State)
      → missing (external_of js p now o db id s) ≡ not (any_external js p now o id (found.rows s))
  external_of_lem none s = refl
  external_of_lem (some id) s = ground (
    arith,
    found.finds_first (by_external js p now o id) s,
    any_same (by_external js p now o id) (has_external js p now o id) (found.rows s)
        (λ row. ground (arith, same_text_lem js id row.external_id)),
  )

  hash_row_lem :
      (s : db.State)
      → missing (hash_row js p now o db s)
        ≡ not (truthy (text_of o.content_hash) && any (has_hash js p now o) (found.rows s))
  hash_row_lem s = ground (
    arith,
    found.finds_first (by_hash js p now o (text_of o.content_hash)) s,
    any_same (by_hash js p now o (text_of o.content_hash)) (has_hash js p now o) (found.rows s)
        (λ row. ground (arith, same_text_lem js (text_of o.content_hash) row.content_hash)),
  )

  visible_row_lem :
      (s : db.State)
      → missing (visible_row js p now o db s)
        ≡ not (
            truthy (normalize_message_text js o.text)
            && any (has_sender_and_text js p now o) (found.rows s))
  visible_row_lem s = ground (arith, found.finds_preferred (by_visible_identity js p now o) s)

  own_row_lem :
      (s : db.State)
      → missing (own_row js p now o db s)
        ≡ not (is_self_send js p now o && any (has_own_send js p now o) (found.rows s))
  own_row_lem s = ground (arith, found.finds_first (by_own_send js p now o) s)

  legacy_row_lem :
      (s : db.State)
      → missing (legacy_row js p now o db s)
        ≡ not (any (has_time_and_text js p now o) (found.rows s))
  unfolding create_data
  legacy_row_lem s = found.finds_unique (legacy_match js (create_data js p now o)) s

  -- A row is created exactly if the table has none with the key, the durable id, the hash of the
  -- content, the sender and text, or the conversation, time and text, and, for a message that the
  -- account sends, none of its own with the text within 10 minutes, and the database creates it.
  pub upsert_message-creates :
      (s : db.State)
      → is_created (upsert_message js p now o db s).0 ≡ (
          not (has_sign js p now o (found.rows s))
          && was_written (db.create (create_data js p now o) s).0)
  upsert_message-creates s =
      creates_if_missing js p now o db s
      ∙ rw
          (
            key_row_lem s,
            external_of_lem (durable_id js p now o) s,
            hash_row_lem s,
            visible_row_lem s,
            own_row_lem s,
            legacy_row_lem s,
          )
          (ground arith)
