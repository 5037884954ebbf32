-- ===== src/MessageRepository/Upsert/Times.antt =====
-- The time that a message keeps when it is observed again.
use mathlib.Core.Path.{subst}
use linkedin_hyper_v.Prelude.{
  ℕ, ◌≡◌, refl, ap, ◌∙◌, String, false, Option, none, some, arith, if◌then◌else◌, ltb,
}
use linkedin_hyper_v.Normalizer.{Script}
use linkedin_hyper_v.Normalizer.Keys.{Printing}
use linkedin_hyper_v.MessageRepository.{Row}
use linkedin_hyper_v.MessageRepository.Upsert.Data.{
  Observed, RowData, or_maybe, confidence, build_update_data, durable_update, visible_update,
}
use linkedin_hyper_v.MessageRepository.Upsert.Conflicts.{
  Attempt, Prisma, Result, after_update, update_message_safely,
}
use linkedin_hyper_v.MessageRepository.Upsert.Ladder.{
  key_row, external_row, hash_row, visible_row, own_row, legacy_row, update_or, legacy_update,
  upsert_message,
}

-- Updates of the table break no constraint, and answer the row as it is written.
pub record Updates (db : Prisma) : Type 0 where
  pub row : String → RowData → db.State → Row
  pub rest : String → RowData → db.State → db.State
  pub written :
      (id : String) (d : RowData) (s : db.State)
      → db.update id d s ≡ (Attempt.written (row id d s), rest id d s)
  pub same_id : (id : String) (d : RowData) (s : db.State) → (row id d s).id ≡ id
  pub same_time : (id : String) (d : RowData) (s : db.State) → (row id d s).sent_at ≡ d.sent_at

module _ (js : Script) (p : Printing) (now : ℕ) (o : Observed) where
  -- The row's own time, unless one was read.
  abbrev pub kept_time : Row → ℕ
  kept_time existing =
      if ltb 0 (confidence js p now o o.timestamp_confidence) then o.sent_at else existing.sent_at

  build-time :
      (existing : Row) → (build_update_data js p now o existing).sent_at ≡ kept_time existing
  unfolding build_update_data
  build-time existing = refl

  durable-time :
      (existing : Row) → (durable_update js p now o existing).sent_at ≡ kept_time existing
  unfolding durable_update
  durable-time existing = build-time existing

  visible-time :
      (existing : Row) → (visible_update js p now o existing).sent_at ≡ kept_time existing
  unfolding visible_update
  visible-time existing = ground (arith, durable-time existing, build-time existing)

  legacy-time : (existing : Row) → (legacy_update js p now o existing).sent_at ≡ kept_time existing
  unfolding legacy_update
  legacy-time existing = build-time existing

module _ (js : Script) (p : Printing) (now : ℕ) (o : Observed) (db : Prisma)
    (updates : Updates db) where
  -- The row that the search finds first.
  abbrev pub found_row : db.State → Option Row
  found_row state = or_maybe (key_row js p now o db state) (
      or_maybe (external_row js p now o db state) (
        or_maybe (hash_row js p now o db state) (
          or_maybe (visible_row js p now o db state) (
            or_maybe (own_row js p now o db state)
              (or_maybe (legacy_row js p now o db state) none)))))

  -- The row is written under its id, with the time it keeps.
  abbrev pub Keeps : (existing : Row) → Result → Type 0
  Keeps existing result =
      (row : Row) × (result ≡ Result.saved row false)
      × (row.id ≡ existing.id)
      × (row.sent_at ≡ kept_time js p now o existing)

  update-Keeps :
      (existing : Row) (d : RowData) (s : db.State)
      → d.sent_at ≡ kept_time js p now o existing
      → Keeps existing (update_message_safely js p now o db existing d s).0
  unfolding update_message_safely
  update-Keeps existing d s e = (
    updates.row existing.id d s,
    ap (λ a. (after_update js p now o db existing d a).0) (updates.written existing.id d s),
    updates.same_id existing.id d s,
    updates.same_time existing.id d s ∙ e,
  )

  unwrap : (row existing : Row) → some row ≡ some existing → row ≡ existing
  unwrap row existing e = ap (λ (o : Option Row). elim o [ none ↦ row | some x ↦ x ]) e

  step :
      (otherwise : Result × db.State) (found others : Option Row) (d : Row → RowData) (s : db.State)
      → ((row : Row) → (d row).sent_at ≡ kept_time js p now o row)
      → ((existing : Row) → others ≡ some existing → Keeps existing otherwise.0)
      → (existing : Row) → or_maybe found others ≡ some existing
      → Keeps existing (update_or js p now o db found d otherwise s).0
  step otherwise none others d s t later existing e = later existing e
  step otherwise (some row) others d s t later existing e =
      subst (λ x. Keeps x (update_or js p now o db (some row) d otherwise s).0)
        (unwrap row existing e) (update-Keeps row (d row) s (t row))

  -- While no update breaks a constraint, a message that is observed again, by whatever sign its row is
  -- found, is written to that row, which keeps its time unless the observation has one that was read.
  pub upsert_message-Keeps :
      (existing : Row) (state : db.State)
      → found_row state ≡ some existing
      → Keeps existing (upsert_message js p now o db state).0
  unfolding upsert_message
  upsert_message-Keeps existing state found =
      step _ (key_row js p now o db state) _ (build_update_data js p now o) state
        (build-time js p now o)
        (step _ (external_row js p now o db state) _ (durable_update js p now o) state
          (durable-time js p now o)
          (step _ (hash_row js p now o db state) _ (durable_update js p now o) state
            (durable-time js p now o)
            (step _ (visible_row js p now o db state) _ (visible_update js p now o) state
              (visible-time js p now o)
              (step _ (own_row js p now o db state) _ (durable_update js p now o) state
                (durable-time js p now o)
                (step _ (legacy_row js p now o db state) none (legacy_update js p now o) state
                  (legacy-time js p now o) (λ existing e. cc))))))
        existing found
