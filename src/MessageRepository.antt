-- ===== src/MessageRepository.antt =====
-- worker/src/db/repositories/MessageRepository.js: the rows of messages and conversations. A
-- confidence is in hundredths and not negative; a text that is missing is the empty text.
pub mod Dedupe
pub mod Pages
pub mod Cleanup
pub mod Conversations
pub mod Upsert
pub mod Repair
mod Tests
mod UpsertTests
use linkedin_hyper_v.Prelude.{
  ℕ, ◌+◌, ◌*◌, ◌/◌, ◌<◌, min, String, Bool, true, false, ◌||◌, ◌&&◌, not, Option, none, some, [],
  ◌∷◌, if◌then◌else◌, truthy, or_text, str_eq, template, includes, starts_with, ltb,
}
use linkedin_hyper_v.Normalizer.{
  Script, normalize_whitespace, clean_linked_in_message_text, is_durable_linked_in_message_id,
  text_of,
}
use linkedin_hyper_v.Normalizer.Messages.{Raw}

-- The model `Message` of worker/prisma/schema.prisma.
pub record Row : Type 0 where
  pub id : String
  pub conversation_id : String
  pub account_id : String
  pub external_id : Option String
  pub dedupe_key : Option String
  pub visibility_state : String
  pub is_canonical : Bool
  pub identity_confidence : ℕ
  pub sender_confidence : ℕ
  pub timestamp_confidence : ℕ
  pub observed_at : Option ℕ
  pub source_run_id : Option String
  pub sender_id : String
  pub sender_name : String
  pub text : String
  pub sent_at : ℕ
  pub is_sent_by_me : Bool
  pub linkedin_message_id : Option String
  pub content_hash : Option String
  pub source : String
  pub raw : Option Raw
  pub created_at : ℕ

-- `Number(value)`, or `none` where it is not finite.
unfoldable pub safe_confidence : (value : Option ℕ) (fallback : ℕ) → ℕ
safe_confidence none fallback = fallback
safe_confidence (some n) fallback = min 100 n

-- `a || b` of texts that may be missing.
abbrev pub or_id : Option String → Option String → String
or_id a b = or_text (text_of a) (text_of b)

abbrev pub event_urn_of : Option Raw → String
event_urn_of none = ""
event_urn_of (some raw) = raw.event_urn

abbrev pub dom_id_of : Option Raw → String
dom_id_of none = ""
dom_id_of (some raw) = raw.dom_id

abbrev points : Bool → ℕ → ℕ
points b n = if b then n else 0

module _ (js : Script) where
  unfoldable pub normalize_message_text : String → String
  normalize_message_text text = clean_linked_in_message_text js text

  -- In hundredths, and 5 more than in the code, so that no row is below 0.
  unfoldable pub rank_message_for_survival : Row → ℕ
  rank_message_for_survival row =
      points (is_durable_linked_in_message_id js (or_id row.external_id row.linkedin_message_id))
        10000
      + safe_confidence (some row.identity_confidence) 0 * 30
      + safe_confidence (some row.sender_confidence) 0 * 20
      + safe_confidence (some row.timestamp_confidence) 0 * 10
      + points (truthy (event_urn_of row.raw)) 1200
      + points (truthy (dom_id_of row.raw)) 600
      + points (not (str_eq row.source "optimistic")) 500
      + points (truthy row.sender_name && not (str_eq row.sender_name "Unknown")) 300

  unfoldable pub is_generic_conversation_name : String → Bool
  is_generic_conversation_name name =
      includes ("" ∷ "unknown" ∷ "messaging" ∷ "linkedin" ∷ "linkedin messaging" ∷ "messages" ∷ [])
        (js.lower (normalize_whitespace js name))
