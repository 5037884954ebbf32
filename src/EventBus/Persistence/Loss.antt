-- ===== src/EventBus/Persistence/Loss.antt =====
-- What becomes of realtime messages.
use Prim.Native.String.{[] as empty, ◌∷◌ as ◌∷ᵗ◌}
use linkedin_hyper_v.Prelude.{
  ℕ, ◌≡◌, refl, ap, String, Bool, true, false, Option, none, some, List, [], ◌∷◌, if◌then◌else◌,
  template, arith, Bool-cases, inl, inr,
}
use linkedin_hyper_v.Normalizer.{Script}
use linkedin_hyper_v.Normalizer.Dates.{Pattern}
use linkedin_hyper_v.Normalizer.Keys.{Printing}
use linkedin_hyper_v.EventBus.{
  Bus, Entry, Envelope, acked_if, handled, parsed, process_entry, process_entries, event_field,
}
use linkedin_hyper_v.EventBus.Persistence.{
  Frame, Repository, Stream, has_colon, after_colon, last_urn_segment, conversation_id_of, persist,
  consumer,
}

after_colon-none : (t : String) → has_colon t ≡ false → after_colon t ≡ none
unfolding has_colon after_colon
after_colon-none empty h = refl
after_colon-none (c ∷ᵗ t) h = ground (arith, after_colon-none t)

-- The conversation of a realtime message is its whole thread id, with the account before it if that has
-- no colon: no segment of a URN is ever taken.
pub conversation_id_of_eq :
    (strip_parens : String → String) (account_id thread_id : String)
    → conversation_id_of strip_parens account_id thread_id
      ≡ (if has_colon thread_id then thread_id else template (account_id ∷ ":" ∷ thread_id ∷ []))
unfolding conversation_id_of last_urn_segment
conversation_id_of_eq strip_parens account_id thread_id = elim (Bool-cases (has_colon thread_id)) [
  | inl urn ↦ rw urn refl
  | inr plain ↦ rw (plain, after_colon-none thread_id plain) refl
]

abbrev pub entry_ids : List Entry → List String
entry_ids [] = []
entry_ids (entry ∷ rest) = entry.id ∷ entry_ids rest

module _ (bus : Bus)
    (calm : (event : bus.Event) (entry : Entry) (w : bus.World)
      → (bus.handler event entry w).0 ≡ false) where
  acked-calm :
      (entry : Entry) (threw : Bool) (w : bus.World)
      → threw ≡ false
      → (acked_if bus entry (threw, w)).0 ≡ entry.id ∷ []
  acked-calm entry true w e = cc
  acked-calm entry false w e = refl

  handled-calm :
      (entry : Entry) (o : Option bus.Event) (w : bus.World)
      → (handled bus entry o w).0 ≡ entry.id ∷ []
  handled-calm entry none w = refl
  handled-calm entry (some event) w =
      let (threw, w') = bus.handler event entry w in acked-calm entry threw w' (calm event entry w)

  process_entries-calm :
      (es : List Entry) (w : bus.World) → (process_entries bus es w).0 ≡ entry_ids es
  unfolding process_entries process_entry
  process_entries-calm [] w = refl
  process_entries-calm (entry ∷ rest) w =
      let o = parsed bus (event_field entry.fields) in
      rw (handled-calm entry o w)
        (ap (λ later. entry.id ∷ later) (process_entries-calm rest (handled bus entry o w).1))

module _ (js : Script) (patterns : Pattern) (p : Printing) (strip_parens : String → String)
    (repository : Repository) (now : ℕ)
    (stream : Stream js patterns p strip_parens repository) where
  calm :
      (event : Envelope Frame) (s : repository.State)
      → (persist js patterns p strip_parens repository now event s).0 ≡ false
  unfolding persist
  calm event s = ground arith

  -- The persistence consumer acknowledges every entry that it reads, in order, whether or not the
  -- repository keeps its message, and also if that throws.
  pub process_entries-consumer :
      (es : List Entry) (s : repository.State)
      → (process_entries (consumer js patterns p strip_parens repository now stream) es s).0
        ≡ entry_ids es
  process_entries-consumer es s =
      process_entries-calm (consumer js patterns p strip_parens repository now stream)
        (λ event entry w. calm event w) es s
