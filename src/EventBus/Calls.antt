-- ===== src/EventBus/Calls.antt =====
-- Which entries the handler is called with.
use mathlib.Core.List.{append-nil, append_assoc}
use linkedin_hyper_v.Prelude.{
  ℕ, zero, suc, ◌≡◌, refl, sym, ap, ◌∙◌, String, Bool, true, false, ◌&&◌, Option, none, some, List,
  [], ◌∷◌, ◌++◌, if◌then◌else◌, truthy, str_eq, Bool-cases, inl, inr,
}
use linkedin_hyper_v.EventBus.{
  Bus, Entry, Read, acked_if, handled, parsed, process_entry, process_entries, polled, poll,
  subscribe, event_field,
}

-- What follows the first `event` of an entry.
abbrev pub event_text : List String → Option String
event_text [] = none
event_text (field ∷ []) = none
event_text (field ∷ (value ∷ rest)) =
    let later = event_text (value ∷ rest) in if str_eq field "event" then some value else later

abbrev is_some {ℓ} : {A : Type ℓ} → Option A → Bool
is_some none = false
is_some (some a) = true

module _ (bus : Bus) where
  -- The entry has an event whose text is not empty and can be parsed.
  abbrev pub is_event : Option String → Bool
  is_event none = false
  is_event (some text) = truthy text && is_some (bus.parse text)

  abbrev pub events : List Entry → List Entry
  events [] = []
  events (entry ∷ rest) =
      let later = events rest in if is_event (event_text entry.fields) then entry ∷ later else later

  -- What is relied on of the record of the handler's calls: a call adds its entry, even if it throws,
  -- and nothing else changes it.
  pub record CallLaws : Type 0 where
    pub calls : bus.World → List Entry
    pub handles :
        (event : bus.Event) (entry : Entry) (w : bus.World)
        → calls (bus.handler event entry w).1 ≡ calls w ++ (entry ∷ [])
    pub reads : (batch : ℕ) (w : bus.World) → calls (bus.xreadgroup batch w).1 ≡ calls w
    pub acks : (id : String) (w : bus.World) → calls (bus.xack id w) ≡ calls w
    pub waits : (w : bus.World) → calls (bus.wait w) ≡ calls w

  event_text_lem : (fields : List String) → event_field fields ≡ event_text fields
  unfolding event_field
  event_text_lem [] = refl
  event_text_lem (field ∷ []) = refl
  event_text_lem (field ∷ (value ∷ rest)) =
      ap (λ later. if str_eq field "event" then some value else later)
        (event_text_lem (value ∷ rest))

  parsed-is_event : (text : Option String) → is_some (parsed bus text) ≡ is_event text
  parsed-is_event none = refl
  parsed-is_event (some text) = elim (Bool-cases (truthy text)) [
    | inl written ↦ rw written refl
    | inr empty ↦ rw empty refl
  ]

  events-append : (xs ys : List Entry) → events (xs ++ ys) ≡ events xs ++ events ys
  events-append [] ys = refl
  events-append (x ∷ xs) ys = elim (Bool-cases (is_event (event_text x.fields))) [
    | inl event ↦ rw event (ap (λ later. x ∷ later) (events-append xs ys))
    | inr other ↦ rw other (events-append xs ys)
  ]

  module _ (laws : CallLaws) where
    calls-acked_if :
        (entry : Entry) (threw : Bool) (w : bus.World)
        → laws.calls (acked_if bus entry (threw, w)).1 ≡ laws.calls w
    calls-acked_if entry true w = refl
    calls-acked_if entry false w = laws.acks entry.id w

    calls-handled :
        (entry : Entry) (event : Option bus.Event) (w : bus.World)
        → laws.calls (handled bus entry event w).1
          ≡ laws.calls w ++ (if is_some event then entry ∷ [] else [])
    calls-handled entry none w = laws.acks entry.id w ∙ sym (append-nil (laws.calls w))
    calls-handled entry (some event) w =
        let (threw, w') = bus.handler event entry w in
        calls-acked_if entry threw w' ∙ laws.handles event entry w

    -- Each entry with an event is given to the handler, in order.
    calls-process_entries :
        (es : List Entry) (w : bus.World)
        → laws.calls (process_entries bus es w).1 ≡ laws.calls w ++ events es
    unfolding process_entries process_entry
    calls-process_entries [] w = sym (append-nil (laws.calls w))
    calls-process_entries (entry ∷ rest) w =
        calls-process_entries rest (process_entry bus entry w).1
        ∙ ap (λ called. called ++ events rest)
            (calls-handled entry (parsed bus (event_field entry.fields)) w)
        ∙ append_assoc (laws.calls w) _ (events rest)
        ∙ ap (λ later. laws.calls w ++ later) joined
      where
        joined :
            (if is_some (parsed bus (event_field entry.fields)) then entry ∷ [] else [])
              ++ events rest
            ≡ events (entry ∷ rest)
        joined =
            rw (event_text_lem entry.fields, parsed-is_event (event_text entry.fields))
              (elim (Bool-cases (is_event (event_text entry.fields))) [
                | inl event ↦ rw event refl
                | inr other ↦ rw other refl
              ])

    calls-polled :
        (r : Read) (w : bus.World)
        → laws.calls (polled bus (r, w)).1 ≡ laws.calls w ++ events (polled bus (r, w)).0.0
    calls-polled Read.failed w = laws.waits w ∙ sym (append-nil (laws.calls w))
    calls-polled Read.timed_out w = sym (append-nil (laws.calls w))
    calls-polled (Read.entries es) w = calls-process_entries es w

    calls-poll :
        (batch : ℕ) (w : bus.World)
        → laws.calls (poll bus batch w).1 ≡ laws.calls w ++ events (poll bus batch w).0.0
    unfolding poll
    calls-poll batch w =
        let (r, w') = bus.xreadgroup batch w in
        calls-polled r w'
        ∙ ap (λ called. called ++ events (polled bus (r, w')).0.0) (laws.reads batch w)

    pub calls-subscribe :
        (batch turns : ℕ) (w : bus.World)
        → laws.calls (subscribe bus batch turns w).1
          ≡ laws.calls w ++ events (subscribe bus batch turns w).0
    unfolding subscribe
    calls-subscribe batch zero w = sym (append-nil (laws.calls w))
    calls-subscribe batch (suc turns) w =
        let (seen, w') = poll bus batch w in
        let later = (subscribe bus batch turns w').0 in
        calls-subscribe batch turns w'
        ∙ ap (λ called. called ++ events later) (calls-poll batch w)
        ∙ append_assoc (laws.calls w) (events seen.0) (events later)
        ∙ ap (λ more. laws.calls w ++ more) (sym (events-append seen.0 later))
