-- ===== src/UnifiedRepository.antt =====
-- worker/src/db/repositories/UnifiedRepository.js: what is stored of profiles, connections,
-- invitations, notifications and posts. The database is an argument.
pub mod Creation
mod Tests
use linkedin_hyper_v.Prelude.{
  ℕ, zero, ◌<◌, ◌≤◌, min, String, Bool, true, false, Option, none, some, if◌then◌else◌, truthy,
  str_eq, ltb,
}
use linkedin_hyper_v.Normalizer.{text_of, text_or_null}
use linkedin_hyper_v.Normalizer.Json.{Json}
use linkedin_hyper_v.Normalizer.Records.{Profile}
use linkedin_hyper_v.Normalizer.Activity.{Connection, Invitation, Notification, Post}

-- `parseInt`, `none` where it is no finite number or below 0.
unfoldable pub take_limit : (parsed : Option ℕ) (fallback max : ℕ) → ℕ
take_limit none fallback max = fallback
take_limit (some n) fallback max = if ltb 0 n then min n max else fallback

-- A row that is there, and whether it was created.
pub record Row : Type 0 where
  pub id : String
  pub external_id : Option String

-- What an update writes besides the fields of its object: `profile_id` is `none` for `undefined`.
pub record Link : Type 0 where
  pub profile_id : Option String
  pub last_seen_at : ℕ

-- `payload`, with the external id; `content_hash` is left out of the second try.
pub record NotificationPayload : Type 0 where
  pub external_id : Option String
  pub profile_id : Option String
  pub kind : String
  pub title : String
  pub text : Option String
  pub url : Option String
  pub occurred_at : ℕ
  pub seen_at : Option ℕ
  pub source : String
  pub raw : Json
  pub content_hash : Option String

-- The answer of a write: the row, a broken unique constraint (P2002), or another error.
pub data Attempt : Type 0 where
  written : Row → Attempt
  conflict : Attempt
  failed : Attempt

-- `upsert_profile` writes the fields of the profile and the time, or creates it; `upsert_connection`
-- and `upsert_invitation` write the fields that are no part of the key, with the link, and create the
-- row with the link's profile or none.
pub record Database : Type 1 where
  pub State : Type 0
  pub upsert_profile : Profile → (now : ℕ) → State → Row × State
  pub upsert_connection : Connection → Link → State → Row × State
  pub upsert_invitation : Invitation → Link → State → Row × State
  pub upsert_post_by_id : (external_id : String) → Post → (now : ℕ) → State → Row × State
  pub upsert_post_by_hash : Post → (now : ℕ) → State → Row × State
  pub find_by_external : (account_id external_id : String) → State → Option Row
  pub find_by_hash : (account_id content_hash : String) → State → Option Row
  pub delete : (id : String) → State → State
  pub update : (id : String) → NotificationPayload → State → Attempt × State
  pub create : (account_id : String) → NotificationPayload → State → Attempt × State

-- The row and whether it was created, or an error.
pub data Result : Type 0 where
  saved : Row → (created : Bool) → Result
  threw : Result

module _ (db : Database) (now : ℕ) where
  unfoldable pub upsert_connection : Connection → db.State → Row × db.State
  upsert_connection connection s =
      let (profile, s') = db.upsert_profile connection.profile now s in
      db.upsert_connection connection
        record { profile_id = text_or_null profile.id; last_seen_at = now } s'

  unfoldable pub upsert_invitation : Invitation → db.State → Row × db.State
  upsert_invitation invitation s =
      let (profile, s') = db.upsert_profile invitation.profile now s in
      db.upsert_invitation invitation
        record { profile_id = text_or_null profile.id; last_seen_at = now } s'

  unfoldable pub upsert_post : Post → db.State → Row × db.State
  upsert_post post s =
      if truthy (text_of post.external_id)
      then db.upsert_post_by_id (text_of post.external_id) post now s
      else db.upsert_post_by_hash post now s

  abbrev pub found_by_external : Notification → db.State → Option Row
  found_by_external n s =
      if truthy (text_of n.external_id)
      then db.find_by_external n.account_id (text_of n.external_id) s
      else none

  abbrev pub found_by_hash : Notification → db.State → Option Row
  found_by_hash n s =
      if truthy n.content_hash then db.find_by_hash n.account_id n.content_hash s else none

  -- The row that is kept, and the other one if two are found.
  unfoldable pub survivor_of : (external hash : Option Row) → Option Row
  survivor_of none hash = hash
  survivor_of (some row) hash = some row

  abbrev other_than : (survivor : Option Row) (external hash : Row) → Row
  other_than none external hash = external
  other_than (some survivor) external hash =
      if str_eq external.id survivor.id then hash else external

  unfoldable pub duplicate_of : (external hash : Option Row) → Option Row
  duplicate_of none hash = none
  duplicate_of (some external) none = none
  duplicate_of (some external) (some hash) =
      if str_eq external.id hash.id
      then none
      else some (other_than (survivor_of (some external) (some hash)) external hash)

  abbrev pub payload_of :
      Notification → (profile_id external_id content_hash : Option String) → NotificationPayload
  payload_of n profile_id external_id content_hash = record {
    external_id = external_id;
    profile_id = profile_id;
    kind = n.kind;
    title = n.title;
    text = n.text;
    url = n.url;
    occurred_at = n.occurred_at;
    seen_at = n.seen_at;
    source = n.source;
    raw = n.raw;
    content_hash = content_hash;
  }

  abbrev profile_row : Option Profile → db.State → Option String × db.State
  profile_row none s = (none, s)
  profile_row (some profile) s =
      let (row, s') = db.upsert_profile profile now s in (text_or_null row.id, s')

  abbrev pub or_own : Option String → Option String → Option String
  or_own none own = own
  or_own (some id) own = some id

  abbrev pub again : Attempt × db.State → Result × db.State
  again (Attempt.written row, s) = (Result.saved row false, s)
  again (Attempt.conflict, s) = (Result.threw, s)
  again (Attempt.failed, s) = (Result.threw, s)

  -- A second try leaves the hash as it is.
  abbrev pub retried :
      (n : Notification) (profile_id : Option String) (survivor : Row)
      → Attempt × db.State
      → Result × db.State
  retried n profile_id survivor (Attempt.written row, s) = (Result.saved row false, s)
  retried n profile_id survivor (Attempt.conflict, s) = again (
      db.update survivor.id
        (payload_of n profile_id (or_own n.external_id survivor.external_id) none) s)
  retried n profile_id survivor (Attempt.failed, s) = (Result.threw, s)

  abbrev pub made : Attempt × db.State → Result × db.State
  made (Attempt.written row, s) = (Result.saved row true, s)
  made (Attempt.conflict, s) = (Result.threw, s)
  made (Attempt.failed, s) = (Result.threw, s)

  abbrev pub without : Option Row → db.State → db.State
  without none s = s
  without (some duplicate) s = db.delete duplicate.id s

  abbrev pub settle :
      (n : Notification) (profile_id : Option String) (survivor : Option Row)
      → db.State
      → Result × db.State
  settle n profile_id none s =
      made (db.create n.account_id (payload_of n profile_id n.external_id (some n.content_hash)) s)
  settle n profile_id (some survivor) s = retried n profile_id survivor (
      db.update survivor.id
        (payload_of n profile_id (or_own n.external_id survivor.external_id) (some n.content_hash))
        s)

  -- What is found once the profile is stored.
  abbrev pub profiled : Notification → db.State → Option String × db.State
  profiled n s = profile_row n.profile s

  unfoldable pub upsert_notification : Notification → db.State → Result × db.State
  upsert_notification n s =
      let (profile_id, s') = profiled n s in
      let external = found_by_external n s' in
      let hash = found_by_hash n s' in
      settle n profile_id (survivor_of external hash) (without (duplicate_of external hash) s')
