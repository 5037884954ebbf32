-- ===== src/EventBus.antt =====
-- worker/src/events/eventBus.js: events over a Redis stream. The stream, JSON, the clock and random
-- bytes are arguments.
pub mod Calls
pub mod Delivery
pub mod Arrival
pub mod Persistence
mod Tests
use linkedin_hyper_v.Prelude.{
  ℕ, zero, suc, ◌+◌, String, Bool, true, false, Option, none, some, List, [], ◌∷◌, ◌++◌,
  if◌then◌else◌, truthy, or_text, str_eq, template,
}

-- `data` is the payload.
pub record Envelope (D : Type 0) : Type 0 where
  pub id : String
  pub kind : String
  pub version : String
  pub account_id : String
  pub occurred_at : String
  pub received_at : String
  pub payload : D

-- An input of `makeEvent`: `data || {}` is given by `payload`.
pub record EventInput (D : Type 0) : Type 0 where
  pub kind : String
  pub account_id : String
  pub payload : D
  pub occurred_at : String

-- `time` is the clock in base 36, padded to nine digits; `random` ten bytes in hexadecimal.
unfoldable pub ulid : (time random : String) → String
ulid time random = template ("evt_" ∷ time ∷ random ∷ [])

unfoldable pub make_event : {D : Type 0} → (time random now : String) → EventInput D → Envelope D
make_event time random now input = record {
  id = ulid time random;
  kind = input.kind;
  version = "1";
  account_id = input.account_id;
  occurred_at = or_text input.occurred_at now;
  received_at = now;
  payload = input.payload;
}

-- An entry of the stream: its id, and its fields and their values in turn.
pub record Entry : Type 0 where
  pub id : String
  pub fields : List String

-- The answer to XREADGROUP.
pub data Read : Type 0 where
  failed : Read
  timed_out : Read
  entries : List Entry → Read

-- A stream with one consumer group. `parse` is `JSON.parse`, `none` where it throws or gives `null`;
-- `handler` says whether it threw.
pub record Bus : Type 1 where
  pub World : Type 0
  pub Event : Type 0
  pub xreadgroup : (batch : ℕ) → World → Read × World
  pub xack : String → World → World
  pub wait : World → World
  pub parse : String → Option Event
  pub handler : Event → Entry → World → Bool × World

-- The value after the field `event`.
unfoldable pub event_field : List String → Option String
event_field [] = none
event_field (field ∷ []) = none
event_field (field ∷ (value ∷ rest)) =
    let later = event_field (value ∷ rest) in if str_eq field "event" then some value else later

module _ (bus : Bus) where
  abbrev pub parsed : Option String → Option bus.Event
  parsed none = none
  parsed (some raw) = if truthy raw then bus.parse raw else none

  -- Acknowledged, unless the handler threw.
  abbrev pub acked_if : Entry → Bool × bus.World → List String × bus.World
  acked_if entry (true, w) = ([], w)
  acked_if entry (false, w) = (entry.id ∷ [], bus.xack entry.id w)

  abbrev pub handled : Entry → Option bus.Event → bus.World → List String × bus.World
  handled entry none w = acked_if entry (false, w)
  handled entry (some event) w = acked_if entry (bus.handler event entry w)

  -- The ids that are acknowledged.
  unfoldable pub process_entry : Entry → bus.World → List String × bus.World
  process_entry entry w = handled entry (parsed (event_field entry.fields)) w

  unfoldable pub process_entries : List Entry → bus.World → List String × bus.World
  process_entries [] w = ([], w)
  process_entries (entry ∷ rest) w =
      let (acked, w') = process_entry entry w in
      let (later, w'') = process_entries rest w' in (acked ++ later, w'')

  abbrev pub polled : Read × bus.World → (List Entry × List String) × bus.World
  polled (Read.failed, w) = (([], []), bus.wait w)
  polled (Read.timed_out, w) = (([], []), w)
  polled (Read.entries es, w) = let (acked, w') = process_entries es w in ((es, acked), w')

  -- One turn of the loop: the entries that were read, and the ids that were acknowledged.
  unfoldable pub poll : (batch : ℕ) → bus.World → (List Entry × List String) × bus.World
  poll batch w = polled (bus.xreadgroup batch w)

  -- The entries that are read in a number of turns.
  unfoldable pub subscribe : (batch turns : ℕ) → bus.World → List Entry × bus.World
  subscribe batch zero w = ([], w)
  subscribe batch (suc turns) w =
      let (seen, w') = poll batch w in
      let (later, w'') = subscribe batch turns w' in (seen.0 ++ later, w'')
