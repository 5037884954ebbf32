-- ===== src/EventBus/Tests.antt =====
-- A stream of two entries, read one at a time, before a repository that always throws.
use Prim.Native.String
use linkedin_hyper_v.Prelude.{
  ℕ, zero, suc, ◌≡◌, refl, String, true, none, some, [], ◌∷◌, ◌++◌, if◌then◌else◌, List, take, drop,
  arith, template,
}
use linkedin_hyper_v.Normalizer.Plain.{js, printing, patterns}
use linkedin_hyper_v.EventBus.{Bus, Entry, Read, subscribe, process_entries}
use linkedin_hyper_v.EventBus.Arrival.{AnsweringBus, Begins, Begins-refl, subscribe-delivers}
use linkedin_hyper_v.EventBus.Calls.{CallLaws, events}
use linkedin_hyper_v.EventBus.Delivery.{BusLaws, Within, entries_of, subscribe-Within}
use linkedin_hyper_v.EventBus.Persistence.{
  Repository, Stream, has_colon, conversation_id_of, consumer,
}
use linkedin_hyper_v.EventBus.Persistence.Loss.{
  conversation_id_of_eq, entry_ids, process_entries-consumer,
}

abbrev entry : String → Entry
entry id = record { id = id; fields = "event" ∷ "{}" ∷ [] }

abbrev one : Entry
one = entry "1"

abbrev other : Entry
other = entry "11"

abbrev next_read : ℕ → Read × ℕ
next_read zero = (Read.entries (one ∷ []), 1)
next_read (suc zero) = (Read.entries (other ∷ []), 2)
next_read (suc (suc n)) = (Read.timed_out, suc (suc n))

-- A world is the number of entries that were read, and the calls of the handler.
abbrev bus : Bus
bus = record {
  World = ℕ × List Entry;
  Event = String;
  xreadgroup = λ batch w. ((next_read w.0).0, ((next_read w.0).1, w.1));
  xack = λ id w. w;
  wait = λ w. w;
  parse = λ text. some text;
  handler = λ event e w. (true, (w.0, w.1 ++ (e ∷ [])));
}

abbrev place : Entry → ℕ
place e = String.count e.id

reads : (w : ℕ) → Within place w (entries_of (next_read w).0) (next_read w).1
reads zero = (omega arith, omega arith)
reads (suc zero) = (omega arith, omega arith)
reads (suc (suc n)) = omega arith

abbrev bus_laws : BusLaws bus
bus_laws = record {
  place = place;
  last = λ w. w.0;
  reads = λ batch w. reads w.0;
  acks = λ id w. refl;
  waits = λ w. refl;
  handles = λ event e w. refl;
}

abbrev bus_calls : CallLaws bus
bus_calls = record {
  calls = λ w. w.1;
  handles = λ event e w. refl;
  reads = λ batch w. refl;
  acks = λ id w. refl;
  waits = λ w. refl;
}

subscribe_example :
    ((subscribe bus 16 3 (0, [])).1.1 ≡ [] ++ events bus (subscribe bus 16 3 (0, [])).0)
    × Within place 0 (events bus (subscribe bus 16 3 (0, [])).0) (subscribe bus 16 3 (0, [])).1.0
subscribe_example = subscribe-Within bus bus_laws bus_calls 16 3 (0, [])

conversation_id_example : conversation_id_of (λ t. t) "me" "urn:li:fsd_conversation:7" ≡ (
    if has_colon "urn:li:fsd_conversation:7"
    then "urn:li:fsd_conversation:7"
    else template ("me" ∷ ":" ∷ "urn:li:fsd_conversation:7" ∷ []))
conversation_id_example = conversation_id_of_eq (λ t. t) "me" "urn:li:fsd_conversation:7"

abbrev repository : Repository
repository = record {
  State = ℕ;
  upsert_message = λ message s. (none, s);
  refresh_conversation_stats = λ id s. s;
}

abbrev stream : Stream js patterns printing (λ t. t) repository
stream = record {
  xreadgroup = λ batch s. next_read s;
  xack = λ id s. s;
  wait = λ s. s;
  parse = λ text. none;
}

process_entries_example :
    (process_entries
      (consumer js patterns printing (λ t. t) repository 1 stream)
      (one ∷ other ∷ [])
      0).0
    ≡ entry_ids (one ∷ other ∷ [])
process_entries_example =
    process_entries-consumer js patterns printing (λ t. t) repository 1 stream (one ∷ other ∷ []) 0

-- A stream that answers: a world is the entries that wait, and the calls of the handler.
abbrev queue : Bus
queue = record {
  World = List Entry × List Entry;
  Event = String;
  xreadgroup = λ batch w. (Read.entries (take batch w.0), (drop batch w.0, w.1));
  xack = λ id w. w;
  wait = λ w. w;
  parse = λ text. some text;
  handler = λ event e w. (true, (w.0, w.1 ++ (e ∷ [])));
}

abbrev queue_laws : AnsweringBus queue
queue_laws = record {
  waiting = λ w. w.0;
  answer = λ batch w. (drop batch w.0, w.1);
  reads = λ batch w. refl;
  rest = λ batch w. Begins-refl (drop batch w.0);
  acks = λ id w. Begins-refl w.0;
  handles = λ event e w. Begins-refl w.0;
}

abbrev queue_calls : CallLaws queue
queue_calls = record {
  calls = λ w. w.1;
  handles = λ event e w. refl;
  reads = λ batch w. refl;
  acks = λ id w. refl;
  waits = λ w. refl;
}

subscribe-delivers_example :
    (given : List Entry) × ((subscribe queue 1 2 (one ∷ other ∷ [], [])).1.1 ≡ [] ++ given)
    × Begins (events queue (one ∷ other ∷ [])) given
subscribe-delivers_example =
    subscribe-delivers queue queue_laws queue_calls 1 2 (one ∷ other ∷ [], []) (omega arith)
      (omega arith)
