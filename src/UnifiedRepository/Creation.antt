-- ===== src/UnifiedRepository/Creation.antt =====
-- When a notification is created, and which row is deleted.
use mathlib.Core.Path.{subst}
use linkedin_hyper_v.Prelude.{
  ◌≡◌, ◌⊎◌, ◌∙◌, sym, List, ◌∷◌, truthy, if◌then◌else◌, refl, ℕ, Bool, true, false, ◌&&◌, Option,
  none, some, str_eq, eq_iff, Bool-cases, inl, inr, String,
}
use linkedin_hyper_v.Normalizer.{text_of}
use linkedin_hyper_v.Normalizer.Records.{Profile}
use linkedin_hyper_v.Normalizer.Activity.{Notification}
use linkedin_hyper_v.UnifiedRepository.{
  Row, Attempt, Database, NotificationPayload, Result, profiled, found_by_external, found_by_hash,
  survivor_of, duplicate_of, again, retried, made, settle, without, or_own, payload_of,
  upsert_notification,
}

abbrev pub is_created : Result → Bool
is_created (Result.saved row created) = created
is_created Result.threw = false

abbrev pub missing : Option Row → Bool
missing none = true
missing (some row) = false

abbrev pub was_written : Attempt → Bool
was_written (Attempt.written row) = true
was_written Attempt.conflict = false
was_written Attempt.failed = false

module _ (db : Database) (now : ℕ) where
  again-kept : (a : Attempt) (s : db.State) → is_created (again db now (a, s)).0 ≡ false
  again-kept (Attempt.written row) s = refl
  again-kept Attempt.conflict s = refl
  again-kept Attempt.failed s = refl

  retried-kept :
      (n : Notification) (profile_id : Option String) (survivor : Row) (a : Attempt) (s : db.State)
      → is_created (retried db now n profile_id survivor (a, s)).0 ≡ false
  retried-kept n profile_id survivor (Attempt.written row) s = refl
  retried-kept n profile_id survivor Attempt.conflict s =
      let (a, s') =
        db.update survivor.id
          (payload_of db now n profile_id (or_own db now n.external_id survivor.external_id) none)
          s in
      again-kept a s'
  retried-kept n profile_id survivor Attempt.failed s = refl

  settle-kept :
      (n : Notification) (profile_id : Option String) (survivor : Row) (s : db.State)
      → is_created (settle db now n profile_id (some survivor) s).0 ≡ false
  settle-kept n profile_id survivor s =
      let (a, s') =
        db.update survivor.id
          (payload_of db now n profile_id (or_own db now n.external_id survivor.external_id)
            (some n.content_hash))
          s in
      retried-kept n profile_id survivor a s'

  made-created : (a : Attempt) (s : db.State) → is_created (made db now (a, s)).0 ≡ was_written a
  made-created (Attempt.written row) s = refl
  made-created Attempt.conflict s = refl
  made-created Attempt.failed s = refl

  -- A payload of a new row.
  abbrev pub new_payload : Notification → (profile_id : Option String) → NotificationPayload
  new_payload n profile_id = record {
    external_id = n.external_id;
    profile_id = profile_id;
    kind = n.kind;
    title = n.title;
    text = n.text;
    url = n.url;
    occurred_at = n.occurred_at;
    seen_at = n.seen_at;
    source = n.source;
    raw = n.raw;
    content_hash = some n.content_hash;
  }

  -- The row of the account with the external id, and the one with the hash.
  abbrev pub with_external : Notification → db.State → Option Row
  with_external n s =
      if truthy (text_of n.external_id)
      then db.find_by_external n.account_id (text_of n.external_id) s
      else none

  abbrev pub with_hash : Notification → db.State → Option Row
  with_hash n s =
      if truthy n.content_hash then db.find_by_hash n.account_id n.content_hash s else none

  settled-created :
      (n : Notification) (profile_id : Option String) (external hash : Option Row) (s : db.State)
      → is_created
          (settle db now n profile_id
            (survivor_of db now external hash)
            (without db now (duplicate_of db now external hash) s)).0
        ≡ (missing external
            && (missing hash
                && was_written (db.create n.account_id (new_payload n profile_id) s).0))
  unfolding survivor_of duplicate_of
  settled-created n profile_id none none s =
      let (a, s') = db.create n.account_id (new_payload n profile_id) s in made-created a s'
  settled-created n profile_id none (some h) s = settle-kept n profile_id h s
  settled-created n profile_id (some x) hash s =
      settle-kept n profile_id x (without db now (duplicate_of db now (some x) hash) s)

-- What is relied on of the record of the ids that are deleted: a deletion adds its id, and no other
-- write changes it.
pub record DeletionLaws (db : Database) : Type 0 where
  pub deletions : db.State → List String
  pub deletes : (id : String) (s : db.State) → deletions (db.delete id s) ≡ id ∷ deletions s
  pub profiles :
      (p : Profile) (now : ℕ) (s : db.State) → deletions (db.upsert_profile p now s).1 ≡ deletions s
  pub updates :
      (id : String) (p : NotificationPayload) (s : db.State)
      → deletions (db.update id p s).1 ≡ deletions s
  pub creates :
      (account_id : String) (p : NotificationPayload) (s : db.State)
      → deletions (db.create account_id p s).1 ≡ deletions s

module _ (db : Database) (laws : DeletionLaws db) (now : ℕ) where
  deletions-again :
      (a : Attempt) (s : db.State) → laws.deletions (again db now (a, s)).1 ≡ laws.deletions s
  deletions-again (Attempt.written row) s = refl
  deletions-again Attempt.conflict s = refl
  deletions-again Attempt.failed s = refl

  deletions-retried :
      (n : Notification) (profile_id : Option String) (survivor : Row) (a : Attempt) (s : db.State)
      → laws.deletions (retried db now n profile_id survivor (a, s)).1 ≡ laws.deletions s
  deletions-retried n profile_id survivor (Attempt.written row) s = refl
  deletions-retried n profile_id survivor Attempt.conflict s =
      let payload =
        payload_of db now n profile_id (or_own db now n.external_id survivor.external_id) none in
      let (a, s') = db.update survivor.id payload s in
      deletions-again a s' ∙ laws.updates survivor.id payload s
  deletions-retried n profile_id survivor Attempt.failed s = refl

  deletions-made :
      (a : Attempt) (s : db.State) → laws.deletions (made db now (a, s)).1 ≡ laws.deletions s
  deletions-made (Attempt.written row) s = refl
  deletions-made Attempt.conflict s = refl
  deletions-made Attempt.failed s = refl

  deletions-settle :
      (n : Notification) (profile_id : Option String) (o : Option Row) (s : db.State)
      → laws.deletions (settle db now n profile_id o s).1 ≡ laws.deletions s
  deletions-settle n profile_id none s =
      let payload = payload_of db now n profile_id n.external_id (some n.content_hash) in
      let (a, s') = db.create n.account_id payload s in
      deletions-made a s' ∙ laws.creates n.account_id payload s
  deletions-settle n profile_id (some survivor) s =
      let payload =
        payload_of db now n profile_id (or_own db now n.external_id survivor.external_id)
          (some n.content_hash) in
      let (a, s') = db.update survivor.id payload s in
      deletions-retried n profile_id survivor a s' ∙ laws.updates survivor.id payload s

  deletions-profiled :
      (n : Notification) (o : Option Profile) (s : db.State)
      → n.profile ≡ o
      → laws.deletions (profiled db now n s).1 ≡ laws.deletions s
  deletions-profiled n none s e = rw e refl
  deletions-profiled n (some p) s e = rw e (laws.profiles p now s)

  -- No row is deleted, or the one with the hash is, and there is another with the external id.
  abbrev pub DeletesOnly : (external hash : Option Row) (before after : List String) → Type 0
  DeletesOnly external hash before after =
      (after ≡ before)
      ⊎ ((kept : Row) × (deleted : Row) × (external ≡ some kept)
          × (hash ≡ some deleted)
          × (str_eq kept.id deleted.id ≡ false)
          × (after ≡ deleted.id ∷ before))

  without-DeletesOnly :
      (external hash : Option Row) (s : db.State)
      → DeletesOnly external hash
          (laws.deletions s)
          (laws.deletions (without db now (duplicate_of db now external hash) s))
  unfolding duplicate_of survivor_of
  without-DeletesOnly none hash s = inl refl
  without-DeletesOnly (some x) none s = inl refl
  without-DeletesOnly (some x) (some h) s = elim (Bool-cases (str_eq x.id h.id)) [
    | inl same ↦ rw same (inl refl)
    | inr differ ↦
        rw (differ, (eq_iff x.id x.id).1 refl) (inr (x, h, refl, refl, differ, laws.deletes h.id s))
  ]

  -- A notification is created exactly if no row is found, by its external id or by its hash, once its
  -- profile is stored, and the database creates it. No row is deleted but the one with the hash, and
  -- that one only if another has the external id.
  pub upsert_notification-creates :
      (n : Notification) (s : db.State)
      → let (profile_id, s') = profiled db now n s in
        let (result, after) = upsert_notification db now n s in
        let external = with_external db now n s' in
        let hash = with_hash db now n s' in
        (is_created result ≡ (
          missing external
          && (missing hash
              && was_written (db.create n.account_id (new_payload db now n profile_id) s').0)))
        × DeletesOnly external hash (laws.deletions s) (laws.deletions after)
  unfolding upsert_notification
  upsert_notification-creates n s =
      let (profile_id, s') = profiled db now n s in
      let external = found_by_external db now n s' in
      let hash = found_by_hash db now n s' in
      let survivor = survivor_of db now external hash in
      let left = without db now (duplicate_of db now external hash) s' in
      (
        settled-created db now n profile_id external hash s',
        subst
            (λ before.
              DeletesOnly external hash before
                (laws.deletions (settle db now n profile_id survivor left).1))
            (deletions-profiled n n.profile s refl)
            (subst (DeletesOnly external hash (laws.deletions s'))
              (sym (deletions-settle n profile_id survivor left))
              (without-DeletesOnly external hash s')),
      )
