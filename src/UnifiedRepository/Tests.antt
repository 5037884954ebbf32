-- ===== src/UnifiedRepository/Tests.antt =====
-- A database with two rows of one notification.
use linkedin_hyper_v.Prelude.{◌≡◌, ◌&&◌, refl, String, List, [], ◌∷◌, none, some}
use linkedin_hyper_v.Normalizer.Json.{Json}
use linkedin_hyper_v.Normalizer.Activity.{Notification}
use linkedin_hyper_v.UnifiedRepository.{Row, Attempt, Database, upsert_notification}
use linkedin_hyper_v.UnifiedRepository.Creation.{
  is_created, missing, was_written, with_external, with_hash, new_payload, DeletionLaws,
  DeletesOnly, upsert_notification-creates,
}

abbrev named : Row
named = record { id = "1"; external_id = some "n" }

abbrev hashed : Row
hashed = record { id = "2"; external_id = none }

abbrev db : Database
db = record {
  State = List String;
  upsert_profile = λ p now s. (named, s);
  upsert_connection = λ c l s. (named, s);
  upsert_invitation = λ i l s. (named, s);
  upsert_post_by_id = λ id p now s. (named, s);
  upsert_post_by_hash = λ p now s. (named, s);
  find_by_external = λ a id s. some named;
  find_by_hash = λ a h s. some hashed;
  delete = λ id s. id ∷ s;
  update = λ id p s. (Attempt.written named, s);
  create = λ a p s. (Attempt.written named, s);
}

abbrev notice : Notification
notice = record {
  account_id = "me";
  external_id = some "n";
  kind = "activity";
  title = "Ann liked your post";
  text = none;
  url = none;
  occurred_at = 1;
  seen_at = none;
  source = "linkedin";
  raw = Json.null;
  content_hash = "h";
  profile = none;
}

abbrev deletion_laws : DeletionLaws db
deletion_laws = record {
  deletions = λ s. s;
  deletes = λ id s. refl;
  profiles = λ p now s. refl;
  updates = λ id p s. refl;
  creates = λ a p s. refl;
}

upsert_notification-creates_example :
    (is_created (upsert_notification db 1 notice []).0 ≡ (
      missing (with_external db 1 notice [])
      && (missing (with_hash db 1 notice [])
          && was_written (db.create "me" (new_payload db 1 notice none) []).0)))
    × DeletesOnly db deletion_laws 1
        (with_external db 1 notice [])
        (with_hash db 1 notice [])
        []
        (deletion_laws.deletions (upsert_notification db 1 notice []).1)
upsert_notification-creates_example = upsert_notification-creates db deletion_laws 1 notice []
