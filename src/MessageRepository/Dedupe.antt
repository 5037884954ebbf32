-- ===== src/MessageRepository/Dedupe.antt =====
-- Removal of repeated rows from what is listed.
use mathlib.Core.Path.{subst}
use linkedin_hyper_v.Prelude.{
  sym, ℕ, ◌+◌, ◌≤◌, ◌≡◌, ◌⊎◌, refl, inl, inr, max, String, true, false, ◌||◌, List, [], ◌∷◌, arith,
  if◌then◌else◌, truthy, eq_iff, template, includes, leb, length, Bool-cases,
}
use linkedin_hyper_v.Normalizer.{Script, is_durable_linked_in_message_id, text_of}
use linkedin_hyper_v.MessageRepository.{Row, normalize_message_text}

unfoldable pub key_of : Script → Row → String
key_of js row =
    if truthy (text_of row.dedupe_key)
    then template ("dedupe:" ∷ text_of row.dedupe_key ∷ [])
    else (if is_durable_linked_in_message_id js (text_of row.external_id)
        then template ("external:" ∷ text_of row.external_id ∷ [])
        else (if truthy (text_of row.content_hash)
            then template ("hash:" ∷ text_of row.content_hash ∷ [])
            else template (
                "legacy:"
                ∷ row.sender_id
                ∷ "|"
                ∷ normalize_message_text js row.text
                ∷ "|"
                ∷ js.iso row.sent_at
                ∷ [])))

module _ (js : Script) (limit : ℕ) where
  -- The loop, with the keys it has seen, and how many rows it has kept.
  unfoldable pub dedupe_from : (seen : List String) (kept : ℕ) → List Row → List Row
  dedupe_from seen kept [] = []
  dedupe_from seen kept (row ∷ rest) =
      let old = includes seen (key_of js row) in
      let later =
        dedupe_from (if old then seen else key_of js row ∷ seen) (if old then kept else kept + 1)
          rest in
      if old then later else (if leb limit (kept + 1) then row ∷ [] else row ∷ later)

  unfoldable pub dedupe_message_rows : List Row → List Row
  dedupe_message_rows rows = dedupe_from [] 0 rows

  pub dedupe-old :
      (seen : List String) (kept : ℕ) (row : Row) (rest : List Row)
      → includes seen (key_of js row) ≡ true
      → dedupe_from seen kept (row ∷ rest) ≡ dedupe_from seen kept rest
  unfolding dedupe_from
  dedupe-old seen kept row rest old = rw old refl

  pub dedupe-full :
      (seen : List String) (kept : ℕ) (row : Row) (rest : List Row)
      → includes seen (key_of js row) ≡ false
      → leb limit (kept + 1) ≡ true
      → dedupe_from seen kept (row ∷ rest) ≡ row ∷ []
  unfolding dedupe_from
  dedupe-full seen kept row rest new full = rw (new, full) refl

  pub dedupe-more :
      (seen : List String) (kept : ℕ) (row : Row) (rest : List Row)
      → includes seen (key_of js row) ≡ false
      → leb limit (kept + 1) ≡ false
      → dedupe_from seen kept (row ∷ rest)
        ≡ row ∷ dedupe_from (key_of js row ∷ seen) (kept + 1) rest
  unfolding dedupe_from
  dedupe-more seen kept row rest new more = rw (new, more) refl

  -- No row has a key of the list, or of an earlier row.
  abbrev pub Fresh : List String → List Row → Type 0
  Fresh seen [] = Unit
  Fresh seen (row ∷ rest) =
      (includes seen (key_of js row) ≡ false) × Fresh (key_of js row ∷ seen) rest

  dedupe_from-Fresh :
      (seen : List String) (kept : ℕ) (rows : List Row) → Fresh seen (dedupe_from seen kept rows)
  unfolding dedupe_from
  dedupe_from-Fresh seen kept [] = tt
  dedupe_from-Fresh seen kept (row ∷ rest) = elim (Bool-cases (includes seen (key_of js row))) [
    | inl old ↦ rw (dedupe-old seen kept row rest old) (dedupe_from-Fresh seen kept rest)
    | inr new ↦ elim (Bool-cases (leb limit (kept + 1))) [
      | inl full ↦ rw (dedupe-full seen kept row rest new full) (new, tt)
      | inr more ↦
          rw (dedupe-more seen kept row rest new more)
            (new, dedupe_from-Fresh (key_of js row ∷ seen) (kept + 1) rest)
    ]
  ]

  length-dedupe_from :
      (seen : List String) (kept : ℕ) (rows : List Row)
      → length (dedupe_from seen kept rows) + kept ≤ max limit (kept + 1)
  unfolding dedupe_from
  length-dedupe_from seen kept [] = omega arith
  length-dedupe_from seen kept (row ∷ rest) = elim (Bool-cases (includes seen (key_of js row))) [
    | inl old ↦ rw (dedupe-old seen kept row rest old) (length-dedupe_from seen kept rest)
    | inr new ↦ elim (Bool-cases (leb limit (kept + 1))) [
      | inl full ↦ rw (dedupe-full seen kept row rest new full) (omega arith)
      | inr more ↦
          rw (dedupe-more seen kept row rest new more)
            (ground (arith, length-dedupe_from (key_of js row ∷ seen) (kept + 1) rest))
    ]
  ]

  abbrev keys : List Row → List String
  keys [] = []
  keys (row ∷ rest) = key_of js row ∷ keys rest

  -- Each row has a key of the list or of a row that was kept.
  abbrev pub Covered : (seen : List String) (kept : List Row) → List Row → Type 0
  Covered seen kept [] = Unit
  Covered seen kept (row ∷ rest) =
      ((includes (keys kept) (key_of js row) || includes seen (key_of js row)) ≡ true)
      × Covered seen kept rest

  moved :
      (seen : List String) (row : Row) (kept rows : List Row)
      → Covered (key_of js row ∷ seen) kept rows
      → Covered seen (row ∷ kept) rows
  moved seen row kept [] c = tt
  moved seen row kept (r ∷ rest) (c, cs) = (ground arith, moved seen row kept rest cs)

  abbrev pub CoveredOrFull : (seen : List String) (kept : ℕ) (rows result : List Row) → Type 0
  CoveredOrFull seen kept rows result = Covered seen result rows ⊎ (limit ≤ length result + kept)

  dedupe_from-Covered :
      (seen : List String) (kept : ℕ) (rows : List Row)
      → CoveredOrFull seen kept rows (dedupe_from seen kept rows)
  dedupe_from-Covered seen kept [] = inl tt
  dedupe_from-Covered seen kept (row ∷ rest) = elim (Bool-cases (includes seen (key_of js row))) [
    | inl old ↦
        subst (CoveredOrFull seen kept (row ∷ rest)) (sym (dedupe-old seen kept row rest old))
          (elim (dedupe_from-Covered seen kept rest) [
            | inl c ↦ inl (ground (arith, old), c)
            | inr full ↦ inr full
          ])
    | inr new ↦ elim (Bool-cases (leb limit (kept + 1))) [
      | inl full ↦
          subst (CoveredOrFull seen kept (row ∷ rest))
            (sym (dedupe-full seen kept row rest new full)) (inr (ground arith))
      | inr more ↦
          subst (CoveredOrFull seen kept (row ∷ rest))
            (sym (dedupe-more seen kept row rest new more))
            (elim (dedupe_from-Covered (key_of js row ∷ seen) (kept + 1) rest) [
              | inl c ↦
                  inl (
                    ground (arith, eq_iff (key_of js row) (key_of js row)),
                    moved seen row _ rest c,
                  )
              | inr full ↦ inr (omega (arith, full))
            ])
    ]
  ]

  -- No two rows that are kept have one key, there are at most as many as the limit (or one), and each
  -- row has the key of one that is kept, unless the limit is reached.
  pub dedupe_message_rows_lem :
      (rows : List Row)
      → Fresh [] (dedupe_message_rows rows)
        × (length (dedupe_message_rows rows) ≤ max limit 1)
        × (Covered [] (dedupe_message_rows rows) rows ⊎ (limit ≤ length (dedupe_message_rows rows)))
  unfolding dedupe_message_rows
  dedupe_message_rows_lem rows = (
    dedupe_from-Fresh [] 0 rows,
    omega (arith, length-dedupe_from [] 0 rows),
    elim (dedupe_from-Covered [] 0 rows) [ inl c ↦ inl c | inr full ↦ inr (omega (arith, full)) ],
  )
