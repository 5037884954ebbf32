-- ===== src/EventBus/Delivery.antt =====
-- How often an entry is delivered.
use linkedin_hyper_v.Prelude.{
  ℕ, zero, suc, ◌≤◌, ◌<◌, ◌≡◌, refl, ◌∙◌, String, Bool, true, false, Option, none, some, List, [],
  ◌∷◌, ◌++◌, arith, Bool-cases, inl, inr,
}
use linkedin_hyper_v.EventBus.Calls.{CallLaws, events, is_event, event_text, calls-subscribe}
use linkedin_hyper_v.EventBus.{
  Bus, Entry, Read, acked_if, handled, parsed, process_entry, process_entries, polled, poll,
  subscribe, event_field,
}

-- The places of the entries ascend strictly from the first to the second bound.
abbrev pub Within : (Entry → ℕ) → ℕ → List Entry → ℕ → Type 0
Within place l [] m = l ≤ m
Within place l (e ∷ es) m = (l < place e) × Within place (place e) es m

abbrev pub entries_of : Read → List Entry
entries_of Read.failed = []
entries_of Read.timed_out = []
entries_of (Read.entries es) = es

-- What is relied on of the stream: entries have a place in it; XREADGROUP with `>` answers entries that
-- lie behind the last one that the group was given, in order, and nothing else moves that one.
pub record BusLaws (bus : Bus) : Type 0 where
  pub place : Entry → ℕ
  pub last : bus.World → ℕ
  pub reads :
      (batch : ℕ) (w : bus.World)
      → Within place
          (last w)
          (entries_of (bus.xreadgroup batch w).0)
          (last (bus.xreadgroup batch w).1)
  pub acks : (id : String) (w : bus.World) → last (bus.xack id w) ≡ last w
  pub waits : (w : bus.World) → last (bus.wait w) ≡ last w
  pub handles :
      (event : bus.Event) (entry : Entry) (w : bus.World)
      → last (bus.handler event entry w).1 ≡ last w

Within-append :
    (place : Entry → ℕ) (l m n : ℕ) (xs ys : List Entry)
    → Within place l xs m
    → Within place m ys n
    → Within place l (xs ++ ys) n
Within-append place l m n [] [] p q = omega arith
Within-append place l m n [] (y ∷ ys) p (q, qs) = (omega arith, qs)
Within-append place l m n (x ∷ xs) ys (p, ps) q = (p, Within-append place (place x) m n xs ys ps q)

module _ (bus : Bus) (laws : BusLaws bus) where
  last-acked :
      (entry : Entry) (threw : Bool) (w : bus.World)
      → laws.last (acked_if bus entry (threw, w)).1 ≡ laws.last w
  last-acked entry true w = refl
  last-acked entry false w = laws.acks entry.id w

  last-handled :
      (entry : Entry) (event : Option bus.Event) (w : bus.World)
      → laws.last (handled bus entry event w).1 ≡ laws.last w
  last-handled entry none w = laws.acks entry.id w
  last-handled entry (some event) w =
      let (threw, w') = bus.handler event entry w in
      last-acked entry threw w' ∙ laws.handles event entry w

  last-process_entries :
      (es : List Entry) (w : bus.World) → laws.last (process_entries bus es w).1 ≡ laws.last w
  unfolding process_entries process_entry
  last-process_entries [] w = refl
  last-process_entries (entry ∷ rest) w =
      last-process_entries rest (process_entry bus entry w).1
      ∙ last-handled entry (parsed bus (event_field entry.fields)) w

  Within-polled :
      (r : Read) (l : ℕ) (w : bus.World)
      → Within laws.place l (entries_of r) (laws.last w)
      → Within laws.place l (polled bus (r, w)).0.0 (laws.last (polled bus (r, w)).1)
  Within-polled Read.failed l w p = omega (arith, laws.waits w)
  Within-polled Read.timed_out l w p = p
  Within-polled (Read.entries es) l w p = rw (last-process_entries es w) p

  Within-poll :
      (batch : ℕ) (w : bus.World)
      → Within laws.place (laws.last w) (poll bus batch w).0.0 (laws.last (poll bus batch w).1)
  unfolding poll
  Within-poll batch w =
      let (r, w') = bus.xreadgroup batch w in Within-polled r (laws.last w) w' (laws.reads batch w)

  read-Within :
      (batch turns : ℕ) (w : bus.World)
      → Within laws.place
          (laws.last w)
          (subscribe bus batch turns w).0
          (laws.last (subscribe bus batch turns w).1)
  unfolding subscribe
  read-Within batch zero w = omega arith
  read-Within batch (suc turns) w =
      Within-append laws.place (laws.last w) (laws.last (poll bus batch w).1) _
        (poll bus batch w).0.0 _ (Within-poll batch w)
        (read-Within batch turns (poll bus batch w).1)

  Within-le : (l m : ℕ) (es : List Entry) → Within laws.place l es m → l ≤ m
  Within-le l m [] p = p
  Within-le l m (e ∷ es) (p, ps) = omega (arith, p, Within-le (laws.place e) m es ps)

  -- An earlier bound will do.
  Within-from :
      (k l m : ℕ) (es : List Entry) → k ≤ l → Within laws.place l es m → Within laws.place k es m
  Within-from k l m [] h p = omega (arith, p)
  Within-from k l m (e ∷ es) h (p, ps) = (omega (arith, p), ps)

  events-Within :
      (l m : ℕ) (es : List Entry) → Within laws.place l es m → Within laws.place l (events bus es) m
  events-Within l m [] p = p
  events-Within l m (e ∷ es) (p, ps) = elim (Bool-cases (is_event bus (event_text e.fields))) [
    | inl event ↦ rw event (p, events-Within (laws.place e) m es ps)
    | inr other ↦ rw other (
        Within-from l (laws.place e) m (events bus es) (omega (arith, p))
          (events-Within (laws.place e) m es ps))
  ]

  module _ (called : CallLaws bus) where
    -- However long a consumer runs, and whatever its handler throws, the handler is called once with
    -- each entry that is read and has an event that can be parsed, in order, and these lie at strictly
    -- ascending places of the stream behind the last one that the group was given: no entry is handled
    -- twice, so that none is tried again.
    pub subscribe-Within :
        (batch turns : ℕ) (w : bus.World)
        → let (read, after) = subscribe bus batch turns w in
          (called.calls after ≡ called.calls w ++ events bus read)
          × Within laws.place (laws.last w) (events bus read) (laws.last after)
    subscribe-Within batch turns w = (
      calls-subscribe bus called batch turns w,
      events-Within (laws.last w) (laws.last (subscribe bus batch turns w).1)
          (subscribe bus batch turns w).0 (read-Within batch turns w),
    )
