-- ===== src/EventBus/Persistence.antt =====
-- worker/src/events/persistenceConsumer.js: realtime messages go to the repository. A text that is
-- missing is the empty text.
pub mod Loss
use Prim.Native.Char.{code}
use Prim.Native.String.{[] as empty, ◌∷◌ as ◌∷ᵗ◌}
use linkedin_hyper_v.Prelude.{
  ℕ, zero, suc, ◌+◌, ◌≡◌, refl, ap, sym, ◌∙◌, String, Bool, true, false, ◌||◌, ◌&&◌, not, Option,
  none, some, List, [], ◌∷◌, ◌++◌, map, if◌then◌else◌, truthy, or_text, str_eq, template, ◌==◌,
  arith, Bool-cases, inl, inr,
}
use linkedin_hyper_v.Normalizer.{Script}
use linkedin_hyper_v.Normalizer.Dates.{Pattern}
use linkedin_hyper_v.Normalizer.Keys.{Printing}
use linkedin_hyper_v.Normalizer.Messages.{Raw, Input, Message, normalize_message}
use linkedin_hyper_v.EventBus.{Bus, Read, Envelope}

-- `includes(':')`, and the text after the last colon.
unfoldable pub has_colon : String → Bool
has_colon empty = false
has_colon (c ∷ᵗ text) = code c == 58 || has_colon text

unfoldable pub after_colon : String → Option String
after_colon empty = none
after_colon (c ∷ᵗ text) =
    let later = after_colon text in
    elim later [ some t ↦ some t | none ↦ if code c == 58 then some text else none ]

abbrev pub segment_of : (strip_parens : String → String) → String → Option String → String
segment_of strip_parens urn none = urn
segment_of strip_parens urn (some text) = strip_parens text

unfoldable pub last_urn_segment : (strip_parens : String → String) → String → String
last_urn_segment strip_parens urn = segment_of strip_parens urn (after_colon urn)

-- The conversation of a thread, as the consumer forms it.
unfoldable pub conversation_id_of :
    (strip_parens : String → String) (account_id thread_id : String) → String
conversation_id_of strip_parens account_id thread_id =
    if has_colon thread_id
    then thread_id
    else template (account_id ∷ ":" ∷ last_urn_segment strip_parens thread_id ∷ [])

-- `data`, with what is read of `data.raw` and its event: `texts` are the extracted text and the three
-- fallbacks, `ids` are `event_urn`, `entityUrn` and `eventUrn`.
pub record Frame : Type 0 where
  pub thread_id : String
  pub conversation_urn : String
  pub entity_urn : String
  pub event_urn : String
  pub event_entity_urn : String
  pub event_event_urn : String
  pub extracted_text : String
  pub content_text : String
  pub attributed_text : String
  pub body : String
  pub created_at : String
  -- The trimmed name of the sender, if the event has one.
  pub sender_name : String
  pub raw : Raw

pub record Repository : Type 1 where
  pub State : Type 0
  -- Whether a row came of it: `none` where it threw.
  pub upsert_message : Message → State → Option Bool × State
  pub refresh_conversation_stats : String → State → State

module _ (js : Script) (patterns : Pattern) (p : Printing) (strip_parens : String → String) where
  abbrev pub thread_of : Frame → String
  thread_of frame = or_text frame.thread_id (or_text frame.conversation_urn frame.entity_urn)

  abbrev pub text_of_frame : Frame → String
  text_of_frame frame =
      or_text frame.extracted_text
        (or_text frame.content_text (or_text frame.attributed_text frame.body))

  abbrev pub id_of_frame : Frame → String
  id_of_frame frame = or_text frame.event_urn (or_text frame.event_entity_urn frame.event_event_urn)

  unfoldable pub input_of : Envelope Frame → Input
  input_of event = record {
    is_sent_by_me = false;
    sent_by_me = false;
    sender_id = "";
    sender_name = event.payload.sender_name;
    text = text_of_frame event.payload;
    external_id = id_of_frame event.payload;
    linkedin_message_id = "";
    id = "";
    created_at = or_text event.payload.created_at event.occurred_at;
    sent_at = "";
    observed_at = none;
    sender_profile_url = "";
    is_optimistic = false;
    source = "realtime";
    raw = event.payload.raw;
  }

  module _ (repository : Repository) where
    abbrev refreshed : String → Option Bool × repository.State → Bool × repository.State
    refreshed conversation_id (some true, s) =
        (true, repository.refresh_conversation_stats conversation_id s)
    refreshed conversation_id (some false, s) = (false, s)
    refreshed conversation_id (none, s) = (false, s)

    unfoldable pub persist_message_event :
        (now : ℕ) → Envelope Frame → repository.State → Bool × repository.State
    persist_message_event now event s =
        let frame = event.payload in
        let conversation_id = conversation_id_of strip_parens event.account_id (thread_of frame) in
        if not (truthy (thread_of frame))
          || (not (truthy (id_of_frame frame)) && not (truthy (text_of_frame frame)))
        then (false, s)
        else refreshed conversation_id (
            repository.upsert_message
              (normalize_message js patterns p event.account_id conversation_id now
                (input_of event))
              s)

    -- The handler of the subscription never throws.
    unfoldable pub persist : (now : ℕ) → Envelope Frame → repository.State → Bool × repository.State
    persist now event s =
        if str_eq event.kind "message.received" || str_eq event.kind "message.sent"
        then (false, (persist_message_event now event s).1)
        else (false, s)

    -- A stream of such events, beside the repository.
    pub record Stream : Type 0 where
      pub xreadgroup : (batch : ℕ) → repository.State → Read × repository.State
      pub xack : String → repository.State → repository.State
      pub wait : repository.State → repository.State
      pub parse : String → Option (Envelope Frame)

    -- `start`: the subscription of the group `persistence`.
    abbrev pub consumer : (now : ℕ) → Stream → Bus
    consumer now stream = record {
      World = repository.State;
      Event = Envelope Frame;
      xreadgroup = stream.xreadgroup;
      xack = stream.xack;
      wait = stream.wait;
      parse = stream.parse;
      handler = λ event entry s. persist now event s;
    }
