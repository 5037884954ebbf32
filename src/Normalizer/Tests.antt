-- ===== src/Normalizer/Tests.antt =====
-- Messages read of a page.
use Prim.Native.String
use linkedin_hyper_v.Prelude.{
  ℕ, ◌+◌, ◌*◌, ◌≤◌, ◌<◌, ◌≡◌, ◌≢◌, refl, inl, String, false, ◌||◌, ◌&&◌, none, some, if◌then◌else◌,
  arith, ltb, truthy, eq_iff,
}
use linkedin_hyper_v.Normalizer.{
  normalize_whitespace, nullable_string, is_durable_linked_in_message_id, conversation_external_id,
}
use linkedin_hyper_v.Normalizer.Json.{
  Json, Fields, SameJson, SameFields, stable_hash, stable_hash-same,
}
use linkedin_hyper_v.Normalizer.TextOrder.{text_before-HashingLaws}
use linkedin_hyper_v.Normalizer.Plain.{js, hashing, printing, patterns}
use linkedin_hyper_v.Normalizer.Records.{Text, ConversationInput, normalize_conversation}
use linkedin_hyper_v.Normalizer.Records.Ids.{conversation_external_id-normalize_conversation}
use linkedin_hyper_v.Normalizer.Dates.{
  ClockTime, apply_time, last_weekday, weekday, at_time, day_ms,
}
use linkedin_hyper_v.Normalizer.Dates.Labels.{apply_time-last_weekday}
use linkedin_hyper_v.Normalizer.Confidence.{
  is_visible, compute_identity_confidence, compute_sender_confidence, is_known, two_of,
  is_visible_eq,
}
use linkedin_hyper_v.Normalizer.Keys.{Hint}
use linkedin_hyper_v.Normalizer.Messages.{Raw, Input, normalize_message, durable_external_id}
use linkedin_hyper_v.Normalizer.Messages.Identity.{normalize_message-durable}

abbrev one_way : Json
one_way =
    Json.object (Fields.field "id" (Json.number 7) (Fields.field "at" (Json.date 3) Fields.end))

abbrev other_way : Json
other_way =
    Json.object (Fields.field "at" (Json.date 3) (Fields.field "id" (Json.number 7) Fields.end))

id≢at : ◌≢◌ {A = String} "id" "at"
id≢at e = ground (arith, eq_iff "id" "at")

stable_hash-same_example : stable_hash hashing one_way ≡ stable_hash hashing other_way
stable_hash-same_example =
    stable_hash-same hashing (text_before-HashingLaws hashing refl) one_way other_way (
      SameJson.fields _ _
        (SameFields.swap "id" "at" (Json.number 7) (Json.date 3) Fields.end id≢at))

-- "SUNDAY" at 09:00, seen on a Thursday at 08:00, eleven weeks in.
abbrev seen : ℕ
seen = 77 * day_ms + 28800000

abbrev nine : ClockTime
nine = record { hours = 9; minutes = 0 }

apply_time-last_weekday_example :
    (apply_time seen (some nine) (last_weekday seen 0) ≤ seen + 300000)
    × (seen < apply_time seen (some nine) (last_weekday seen 0) + 8 * day_ms)
    × (weekday (apply_time seen (some nine) (last_weekday seen 0))
        ≡ (if ltb (seen + 300000) (at_time nine (last_weekday seen 0)) then 6 else 0))
apply_time-last_weekday_example =
    apply_time-last_weekday seen 0 nine (omega arith) (omega arith) (omega arith) (omega arith)

is_visible_example :
    is_visible
      (compute_identity_confidence false
        (compute_sender_confidence "other" "Ann" false "https://www.linkedin.com/in/ann")
        0
        "hi"
        "https://www.linkedin.com/in/ann")
      (compute_sender_confidence "other" "Ann" false "https://www.linkedin.com/in/ann")
    ≡ ((false || is_known "Ann")
        && (false || two_of (truthy "hi") (truthy "https://www.linkedin.com/in/ann") (ltb 0 0)))
is_visible_example =
    is_visible_eq false "other" "Ann" false "https://www.linkedin.com/in/ann" "hi" 0 (inl refl)

abbrev raw : Raw
raw = record {
  sender_profile_url = "";
  event_urn = "";
  dom_id = "";
  time_text = "";
  day_label = "";
  position_hint = Hint.undefined;
  json = Json.null;
}

abbrev observed : (id text source : String) → Input
observed id text source = record {
  is_sent_by_me = false;
  sent_by_me = false;
  sender_id = "ann";
  sender_name = "Ann";
  text = text;
  external_id = id;
  linkedin_message_id = "";
  id = "";
  created_at = "";
  sent_at = "";
  observed_at = none;
  sender_profile_url = "";
  is_optimistic = false;
  source = source;
  raw = raw;
}

durable :
    (text source : String)
    → durable_external_id js patterns printing (observed "urn:li:msg_message:1" text source)
      ≡ some "urn:li:msg_message:1"
unfolding durable_external_id is_durable_linked_in_message_id nullable_string normalize_whitespace
durable text source = refl

normalize_message-durable_example :
    (normalize_message js patterns printing "me" "t" 1
      (observed "urn:li:msg_message:1" "hi" "linkedin")).dedupe_key
    ≡ (normalize_message js patterns printing "me" "t" 2
        (observed "urn:li:msg_message:1" "hi!" "realtime")).dedupe_key
normalize_message-durable_example =
    normalize_message-durable js patterns printing "me" "t" 1 2
      (observed "urn:li:msg_message:1" "hi" "linkedin")
      (observed "urn:li:msg_message:1" "hi!" "realtime") "urn:li:msg_message:1"
      (durable "hi" "linkedin") (durable "hi!" "realtime")

abbrev text : Text
text = record { js = js; hashing = hashing; cut = λ t. t }

abbrev thread : ConversationInput
thread = record {
  conversation_id = "me:7";
  id = "";
  participant_profile_url = "";
  participant_name = some "Ann";
  participant_avatar_url = "";
  last_at = "";
  last_text = "hi";
  last_sent_by_me = false;
  last_sender_id = "";
  input_last_sent_by_me = false;
  thread_url = "";
  url = "";
  sync_state = "";
  message_count = none;
  last_resolved_at = "";
  resolve_attempts = none;
  resolve_error = "";
  source = "";
  cursor = "";
  has_more_history = false;
}

conversation_external_id_example :
    conversation_external_id js "me" (normalize_conversation text "me" 1 thread).id
    ≡ (normalize_conversation text "me" 1 thread).external_id
conversation_external_id_example =
    conversation_external_id-normalize_conversation text "me" 1 thread
