-- ===== src/MessageRepository/Pages/Whole.antt =====
-- What one page shows, and what it leaves out.
use mathlib.Core.Path.{subst}
use linkedin_hyper_v.Prelude.{
  ℕ, zero, suc, ◌+◌, ◌≤◌, ◌≡◌, ◌⊎◌, refl, sym, inl, inr, ap, Bool, true, ◌&&◌, Option, List, [],
  ◌∷◌, String, arith, none, some, ◌*◌, ◌||◌, ◌==◌, max, str_eq, eq_iff, leb, ltb, length, take,
  Every, Bool-cases, includes,
}
use linkedin_hyper_v.Normalizer.{Script}
use linkedin_hyper_v.MessageRepository.{Row}
use linkedin_hyper_v.MessageRepository.Dedupe.{
  dedupe_message_rows, dedupe_message_rows_lem, dedupe_from, dedupe-old, dedupe-full, dedupe-more,
  key_of, Covered,
}
use linkedin_hyper_v.MessageRepository.Pages.{
  Cursor, Finder, after, found, shown_in, get_messages_page_by_conversation,
}
use linkedin_hyper_v.MessageRepository.Pages.Walk.{FinderLaws}

length-take : (n : ℕ) (rows : List Row) → length (take n rows) ≤ n
length-take zero rows = omega arith
length-take (suc n) [] = omega arith
length-take (suc n) (row ∷ rest) = omega (arith, length-take n rest)

take_all : (n : ℕ) (rows : List Row) → length rows ≤ n → take n rows ≡ rows
take_all zero [] h = refl
take_all zero (row ∷ rest) h = absurd (omega arith)
take_all (suc n) [] h = refl
take_all (suc n) (row ∷ rest) h = ap (λ t. row ∷ t) (take_all n rest (omega arith))

module _ (P : Row → Bool) where
  abbrev Holds : List Row → Type 0
  Holds rows = Every (λ row. P row ≡ true) rows

  take-Holds : (n : ℕ) (rows : List Row) → Holds rows → Holds (take n rows)
  take-Holds zero rows h = tt
  take-Holds (suc n) [] h = tt
  take-Holds (suc n) (row ∷ rest) (h, hs) = (h, take-Holds n rest hs)

  dedupe-Holds :
      (js : Script) (limit : ℕ) (seen : List String) (kept : ℕ) (rows : List Row)
      → Holds rows
      → Holds (dedupe_from js limit seen kept rows)
  unfolding dedupe_from
  dedupe-Holds js limit seen kept [] h = tt
  dedupe-Holds js limit seen kept (row ∷ rest) (h, hs) =
      elim (Bool-cases (includes seen (key_of js row))) [
        | inl old ↦
            subst Holds (sym (dedupe-old js limit seen kept row rest old))
              (dedupe-Holds js limit seen kept rest hs)
        | inr new ↦ elim (Bool-cases (leb limit (kept + 1))) [
          | inl full ↦ subst Holds (sym (dedupe-full js limit seen kept row rest new full)) (h, tt)
          | inr more ↦
              subst Holds (sym (dedupe-more js limit seen kept row rest new more))
                (h, dedupe-Holds js limit (key_of js row ∷ seen) (kept + 1) rest hs)
        ]
      ]

-- A row that may be shown.
abbrev pub IsShown : (conversation_id : String) → Row → Type 0
IsShown conversation_id row =
    (row.conversation_id ≡ conversation_id)
    × (row.visibility_state ≡ "visible")
    × (row.is_canonical ≡ true)

module _ (finder : Finder) where
  abbrev is_later : Option Cursor → Row → Bool
  is_later none row = true
  is_later (some c) row =
      ltb c.sent_at row.sent_at || (c.sent_at == row.sent_at && finder.before c.id row.id)

  -- What is asked of the table: the rows that may be shown and come after the cursor.
  abbrev pub is_wanted : (conversation_id : String) → Option Cursor → Row → Bool
  is_wanted conversation_id cursor row =
      (str_eq row.conversation_id conversation_id
        && (str_eq row.visibility_state "visible" && row.is_canonical))
      && is_later cursor row

module _ (finder : Finder) (laws : FinderLaws finder) (js : Script) where
  split-Every :
      (conversation_id : String) (cursor : Option Cursor) (rows : List Row)
      → Holds (λ row. shown_in finder conversation_id row && after finder cursor row) rows
      → Holds (shown_in finder conversation_id) rows
  split-Every conversation_id cursor [] h = tt
  split-Every conversation_id cursor (row ∷ rest) (h, hs) =
      (ground arith, split-Every conversation_id cursor rest hs)

  dedupe_message_rows-Holds :
      (conversation_id : String) (limit : ℕ) (rows : List Row)
      → Holds (shown_in finder conversation_id) rows
      → Holds (shown_in finder conversation_id) (dedupe_message_rows js limit rows)
  unfolding dedupe_message_rows
  dedupe_message_rows-Holds conversation_id limit rows h = dedupe-Holds _ js limit [] 0 rows h

  Holds-IsShown :
      (conversation_id : String) (rows : List Row)
      → Holds (shown_in finder conversation_id) rows
      → Every (IsShown conversation_id) rows
  unfolding shown_in
  Holds-IsShown conversation_id [] h = tt
  Holds-IsShown conversation_id (row ∷ rest) (h, hs) = (
    (
      ground (arith, eq_iff row.conversation_id conversation_id),
      ground (arith, eq_iff row.visibility_state "visible"),
      ground arith,
    ),
    Holds-IsShown conversation_id rest hs,
  )

  wanted-found :
      (conversation_id : String) (limit : ℕ) (cursor : Option Cursor) (state : finder.State)
      → found finder conversation_id limit cursor state
        ≡ finder.find_many state
            (is_wanted finder conversation_id cursor)
            (max (limit * 3 + 1) (limit + 1))
  unfolding shown_in
  wanted-found conversation_id limit none state = refl
  wanted-found conversation_id limit (some c) state = refl

  Covered-wanted :
      (conversation_id : String) (limit : ℕ) (cursor : Option Cursor) (state : finder.State)
      (items : List Row)
      → Covered js limit [] items (found finder conversation_id limit cursor state)
      → Covered js limit [] items (
          finder.find_many state
            (is_wanted finder conversation_id cursor)
            (max (limit * 3 + 1) (limit + 1)))
  Covered-wanted conversation_id limit cursor state items c =
      subst (Covered js limit [] items) (wanted-found conversation_id limit cursor state) c

  -- A page shows at most as many rows as its limit, all visible and canonical ones of the
  -- conversation; and if it does not say that there is more, each row that was found has the key of
  -- one that is shown, where the table was asked for three times the limit and one of the rows of
  -- that kind after the cursor.
  pub get_messages_page_by_conversation_lem :
      (conversation_id : String) (limit : ℕ) (cursor : Option Cursor) (state : finder.State)
      → let page = get_messages_page_by_conversation finder js conversation_id limit cursor state in
        (length page.items ≤ limit)
        × Every (IsShown conversation_id) page.items
        × ((page.has_more ≡ true)
            ⊎ Covered js limit [] page.items (
                finder.find_many state
                  (is_wanted finder conversation_id cursor)
                  (max (limit * 3 + 1) (limit + 1))))
  unfolding get_messages_page_by_conversation
  get_messages_page_by_conversation_lem conversation_id limit cursor state =
      let rows = found finder conversation_id limit cursor state in
      let deduped = dedupe_message_rows js (limit + 1) rows in
      (
        length-take limit deduped,
        Holds-IsShown conversation_id (take limit deduped) (
            take-Holds _ limit deduped (
              dedupe_message_rows-Holds conversation_id (limit + 1) rows
                (split-Every conversation_id cursor rows (laws.matching state _ _)))),
        elim (Bool-cases (ltb limit (length deduped))) [
          | inl more ↦ inl more
          | inr whole ↦ elim (dedupe_message_rows_lem js (limit + 1) rows).2 [
            | inl c ↦ inr (
                Covered-wanted conversation_id limit cursor state _ (
                  subst (λ shown. Covered js limit [] shown rows)
                    (sym (take_all limit deduped (ground arith))) c))
            | inr full ↦ inl (ground arith)
          ]
        ],
      )
