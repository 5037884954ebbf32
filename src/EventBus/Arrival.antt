-- ===== src/EventBus/Arrival.antt =====
-- That every entry is delivered.
use mathlib.Core.Path.{subst}
use linkedin_hyper_v.Prelude.{
  ℕ, zero, suc, ◌-◌, ◌≤◌, ◌≡◌, refl, ◌∙◌, Bool, true, false, Option, none, some, List, [], ◌∷◌,
  ◌++◌, arith, length, take, drop, String, Bool-cases, inl, inr,
}
use linkedin_hyper_v.EventBus.Calls.{CallLaws, events, is_event, event_text, calls-subscribe}
use linkedin_hyper_v.EventBus.{
  Bus, Entry, Read, acked_if, handled, parsed, process_entry, process_entries, poll, subscribe,
  event_field,
}

-- The first list begins the second.
abbrev pub Begins : List Entry → List Entry → Type 0
Begins [] ys = Unit
Begins (x ∷ xs) [] = ⊥
Begins (x ∷ xs) (y ∷ ys) = (x ≡ y) × Begins xs ys

-- What is relied on of a stream that answers: XREADGROUP with `>` gives as many of the entries that the
-- group was not given yet as are asked for, in order; nothing else takes one away, but a handler may
-- add to them.
pub record AnsweringBus (bus : Bus) : Type 0 where
  pub waiting : bus.World → List Entry
  pub answer : ℕ → bus.World → bus.World
  pub reads :
      (batch : ℕ) (w : bus.World)
      → bus.xreadgroup batch w ≡ (Read.entries (take batch (waiting w)), answer batch w)
  pub rest :
      (batch : ℕ) (w : bus.World) → Begins (drop batch (waiting w)) (waiting (answer batch w))
  pub acks : (id : String) (w : bus.World) → Begins (waiting w) (waiting (bus.xack id w))
  pub handles :
      (event : bus.Event) (entry : Entry) (w : bus.World)
      → Begins (waiting w) (waiting (bus.handler event entry w).1)

pub Begins-refl : (xs : List Entry) → Begins xs xs
Begins-refl [] = tt
Begins-refl (x ∷ xs) = (refl, Begins-refl xs)

Begins-trans : (xs ys zs : List Entry) → Begins xs ys → Begins ys zs → Begins xs zs
Begins-trans [] ys zs p q = tt
Begins-trans (x ∷ xs) [] zs p q = absurd p
Begins-trans (x ∷ xs) (y ∷ ys) [] p q = absurd q
Begins-trans (x ∷ xs) (y ∷ ys) (z ∷ zs) (e, p) (f, q) = (e ∙ f, Begins-trans xs ys zs p q)

Begins-drop : (n : ℕ) (xs ys : List Entry) → Begins xs ys → Begins (drop n xs) (drop n ys)
Begins-drop zero xs ys p = p
Begins-drop (suc n) [] ys p = tt
Begins-drop (suc n) (x ∷ xs) [] p = absurd p
Begins-drop (suc n) (x ∷ xs) (y ∷ ys) (e, p) = Begins-drop n xs ys p

-- What is taken of a list goes on with what begins with the rest.
Begins-append :
    (n : ℕ) (xs ys zs : List Entry)
    → Begins xs ys
    → Begins (drop n xs) zs
    → Begins xs (take n ys ++ zs)
Begins-append zero xs ys zs p q = q
Begins-append (suc n) [] ys zs p q = tt
Begins-append (suc n) (x ∷ xs) [] zs p q = absurd p
Begins-append (suc n) (x ∷ xs) (y ∷ ys) zs (e, p) q = (e, Begins-append n xs ys zs p q)

module _ (bus : Bus) (laws : AnsweringBus bus) where
  acked-Begins :
      (entry : Entry) (threw : Bool) (w : bus.World)
      → Begins (laws.waiting w) (laws.waiting (acked_if bus entry (threw, w)).1)
  acked-Begins entry true w = Begins-refl (laws.waiting w)
  acked-Begins entry false w = laws.acks entry.id w

  handled-Begins :
      (entry : Entry) (event : Option bus.Event) (w : bus.World)
      → Begins (laws.waiting w) (laws.waiting (handled bus entry event w).1)
  handled-Begins entry none w = laws.acks entry.id w
  handled-Begins entry (some event) w =
      let (threw, w') = bus.handler event entry w in
      Begins-trans (laws.waiting w) (laws.waiting w') _ (laws.handles event entry w)
        (acked-Begins entry threw w')

  process_entries-Begins :
      (es : List Entry) (w : bus.World)
      → Begins (laws.waiting w) (laws.waiting (process_entries bus es w).1)
  unfolding process_entries process_entry
  process_entries-Begins [] w = Begins-refl (laws.waiting w)
  process_entries-Begins (entry ∷ rest) w =
      let w' = (handled bus entry (parsed bus (event_field entry.fields)) w).1 in
      Begins-trans (laws.waiting w) (laws.waiting w') _ (handled-Begins entry _ w)
        (process_entries-Begins rest w')

  poll-reads : (batch : ℕ) (w : bus.World) → (poll bus batch w).0.0 ≡ take batch (laws.waiting w)
  unfolding poll
  poll-reads batch w = rw (laws.reads batch w) refl

  poll-rest :
      (batch : ℕ) (w : bus.World)
      → Begins (drop batch (laws.waiting w)) (laws.waiting (poll bus batch w).1)
  unfolding poll
  poll-rest batch w = rw (laws.reads batch w) (
      Begins-trans (drop batch (laws.waiting w)) (laws.waiting (laws.answer batch w)) _
        (laws.rest batch w)
        (process_entries-Begins (take batch (laws.waiting w)) (laws.answer batch w)))

  length-drop : (n : ℕ) (xs : List Entry) → length (drop n xs) ≡ length xs - n
  length-drop zero xs = omega arith
  length-drop (suc n) [] = omega arith
  length-drop (suc n) (x ∷ xs) = omega (arith, length-drop n xs)

  delivered :
      (batch turns : ℕ) (xs : List Entry) (w : bus.World)
      → 1 ≤ batch
      → length xs ≤ turns
      → Begins xs (laws.waiting w)
      → Begins xs (subscribe bus batch turns w).0
  unfolding subscribe
  delivered batch zero [] w b n p = tt
  delivered batch zero (x ∷ xs) w b n p = absurd (omega (arith, n))
  delivered batch (suc turns) xs w b n p =
      let w' = (poll bus batch w).1 in
      rw (poll-reads batch w) (
        Begins-append batch xs (laws.waiting w) (subscribe bus batch turns w').0 p (
          delivered batch turns (drop batch xs) w' b (omega (arith, length-drop batch xs)) (
            Begins-trans (drop batch xs) (drop batch (laws.waiting w)) (laws.waiting w')
              (Begins-drop batch xs (laws.waiting w) p) (poll-rest batch w))))

  Begins-events : (xs ys : List Entry) → Begins xs ys → Begins (events bus xs) (events bus ys)
  Begins-events [] ys p = tt
  Begins-events (x ∷ xs) [] p = absurd p
  Begins-events (x ∷ xs) (y ∷ ys) (e, p) =
      subst (λ z. Begins (events bus (x ∷ xs)) (events bus (z ∷ ys))) e
        (elim (Bool-cases (is_event bus (event_text x.fields))) [
          | inl event ↦ rw event (refl, Begins-events xs ys p)
          | inr other ↦ rw other (Begins-events xs ys p)
        ])

  -- While the stream answers, and if a consumer reads at least one entry in a turn and takes as many
  -- turns as entries wait for its group, its handler is called with those of them that have an event
  -- that can be parsed, before all others, and in order.
  pub subscribe-delivers :
      (called : CallLaws bus) (batch turns : ℕ) (w : bus.World)
      → 1 ≤ batch
      → length (laws.waiting w) ≤ turns
      → (given : List Entry) × (called.calls (subscribe bus batch turns w).1
          ≡ called.calls w ++ given)
        × Begins (events bus (laws.waiting w)) given
  subscribe-delivers called batch turns w b n =
      let read = (subscribe bus batch turns w).0 in
      (
        events bus read,
        calls-subscribe bus called batch turns w,
        Begins-events (laws.waiting w) read
            (delivered batch turns (laws.waiting w) w b n (Begins-refl (laws.waiting w))),
      )
