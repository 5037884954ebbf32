-- ===== src/MessageRepository/Pages/Walk.antt =====
-- Pages read one after the other, each from the cursor of the page before.
use mathlib.Core.Path.{subst}
use linkedin_hyper_v.Prelude.{
  ℕ, zero, suc, ◌+◌, ◌≡◌, ◌≢◌, ◌<◌, ◌⊎◌, refl, sym, ◌∙◌, inl, inr, String, Bool, true, false, ◌&&◌,
  Option, none, some, List, [], ◌∷◌, ◌++◌, arith, ltb, leb, length, take, Every, Bool-cases,
  includes,
}
use linkedin_hyper_v.Normalizer.{Script}
use linkedin_hyper_v.MessageRepository.{Row}
use linkedin_hyper_v.MessageRepository.Dedupe.{
  dedupe_message_rows, dedupe_from, dedupe-old, dedupe-full, dedupe-more, key_of,
}
use linkedin_hyper_v.MessageRepository.Pages.{
  Cursor, Finder, walk, next_of, MessagesPage, cursor_of, last_row, after, found, shown_in,
  get_messages_page_by_conversation,
}

module _ (finder : Finder) where
  -- The row comes strictly after the cursor, by its time or, at the same time, by its id.
  abbrev pub IsAfter : Option Cursor → Row → Type 0
  IsAfter none row = Unit
  IsAfter (some c) row =
      (c.sent_at < row.sent_at) ⊎ ((c.sent_at ≡ row.sent_at) × (finder.before c.id row.id ≡ true))

  -- Each row comes strictly after the one before it, the first after the cursor.
  abbrev pub Ascends : Option Cursor → List Row → Type 0
  Ascends cursor [] = Unit
  Ascends cursor (row ∷ rest) = IsAfter cursor row × Ascends (some (cursor_of row)) rest

  -- No two rows have one time and one id.
  abbrev pub Apart : List Row → Type 0
  Apart [] = Unit
  Apart (row ∷ rest) =
      Every (λ later. (later.sent_at ≢ row.sent_at) ⊎ (later.id ≢ row.id)) rest × Apart rest

  after-IsAfter :
      (cursor : Option Cursor) (row : Row) → after finder cursor row ≡ true → IsAfter cursor row
  after-IsAfter none row h = tt
  after-IsAfter (some c) row h = ground arith

-- What is relied on of the database: rows come in order, each matches, and ids are ordered strictly.
pub record FinderLaws (finder : Finder) : Type 0 where
  pub ascending :
      (state : finder.State) (matches : Row → Bool) (n : ℕ)
      → Ascends finder none (finder.find_many state matches n)
  pub matching :
      (state : finder.State) (matches : Row → Bool) (n : ℕ)
      → Every (λ row. matches row ≡ true) (finder.find_many state matches n)
  pub transitive :
      (i j k : String)
      → finder.before i j ≡ true
      → finder.before j k ≡ true
      → finder.before i k ≡ true
  pub irreflexive : (i : String) → finder.before i i ≡ false

module _ (finder : Finder) (laws : FinderLaws finder) (js : Script) where
  IsAfter-trans :
      (cursor : Option Cursor) (row next : Row)
      → IsAfter finder cursor row
      → IsAfter finder (some (cursor_of row)) next
      → IsAfter finder cursor next
  IsAfter-trans none row next a b = tt
  IsAfter-trans (some c) row next a b = ground (arith, laws.transitive c.id row.id next.id)

  Ascends-earlier :
      (cursor : Option Cursor) (row : Row) (rows : List Row)
      → IsAfter finder cursor row
      → Ascends finder (some (cursor_of row)) rows
      → Ascends finder cursor rows
  Ascends-earlier cursor row [] a s = tt
  Ascends-earlier cursor row (next ∷ rest) a (b, s) = (IsAfter-trans cursor row next a b, s)

  take-Ascends :
      (n : ℕ) (cursor : Option Cursor) (rows : List Row)
      → Ascends finder cursor rows
      → Ascends finder cursor (take n rows)
  take-Ascends zero cursor rows s = tt
  take-Ascends (suc n) cursor [] s = tt
  take-Ascends (suc n) cursor (row ∷ rest) (a, s) =
      (a, take-Ascends n (some (cursor_of row)) rest s)

  dedupe-Ascends :
      (limit : ℕ) (seen : List String) (kept : ℕ) (cursor : Option Cursor) (rows : List Row)
      → Ascends finder cursor rows
      → Ascends finder cursor (dedupe_from js limit seen kept rows)
  unfolding dedupe_from
  dedupe-Ascends limit seen kept cursor [] s = tt
  dedupe-Ascends limit seen kept cursor (row ∷ rest) (a, s) =
      elim (Bool-cases (includes seen (key_of js row))) [
        | inl old ↦
            subst (Ascends finder cursor) (sym (dedupe-old js limit seen kept row rest old))
              (dedupe-Ascends limit seen kept cursor rest (Ascends-earlier cursor row rest a s))
        | inr new ↦ elim (Bool-cases (leb limit (kept + 1))) [
          | inl full ↦
              subst (Ascends finder cursor) (sym (dedupe-full js limit seen kept row rest new full))
                (a, tt)
          | inr more ↦
              subst (Ascends finder cursor) (sym (dedupe-more js limit seen kept row rest new more))
                (
                  a,
                  dedupe-Ascends limit (key_of js row ∷ seen) (kept + 1) (some (cursor_of row)) rest
                      s,
                )
        ]
      ]

  -- Rows in order that all come after a cursor.
  Ascends-from :
      (cursor : Option Cursor) (rows : List Row)
      → Ascends finder none rows
      → Every (IsAfter finder cursor) rows
      → Ascends finder cursor rows
  Ascends-from cursor [] s e = tt
  Ascends-from cursor (row ∷ rest) (a, s) (e, es) = (e, s)

  differ_after :
      (row : Row) (rows : List Row)
      → Ascends finder (some (cursor_of row)) rows
      → Every (λ later. (later.sent_at ≢ row.sent_at) ⊎ (later.id ≢ row.id)) rows
  differ_after row [] s = tt
  differ_after row (next ∷ rest) (a, s) = (
    differ row next a,
    differ_after row rest (Ascends-earlier (some (cursor_of row)) next rest a s),
  )
    where
      differ :
          (row later : Row)
          → IsAfter finder (some (cursor_of row)) later
          → (later.sent_at ≢ row.sent_at) ⊎ (later.id ≢ row.id)
      differ row later (inl more) = inl (ground arith)
      differ row later (inr (same, h)) =
          inr (λ e. absurd (ground (arith, laws.irreflexive row.id, e)))

  Ascends-Apart :
      (cursor : Option Cursor) (rows : List Row) → Ascends finder cursor rows → Apart finder rows
  Ascends-Apart cursor [] s = tt
  Ascends-Apart cursor (row ∷ rest) (a, s) =
      (differ_after row rest s, Ascends-Apart (some (cursor_of row)) rest s)

  module _ (conversation_id : String) (limit : ℕ) where
    split-Every :
        (cursor : Option Cursor) (rows : List Row)
        → Every
            (λ row. (shown_in finder conversation_id row && after finder cursor row) ≡ true)
            rows
        → Every (IsAfter finder cursor) rows
    split-Every cursor [] e = tt
    split-Every cursor (row ∷ rest) (e, es) =
        (after-IsAfter finder cursor row (ground arith), split-Every cursor rest es)

    page : (cursor : Option Cursor) (state : finder.State) → MessagesPage
    page = get_messages_page_by_conversation finder js conversation_id limit

    page-Ascends :
        (cursor : Option Cursor) (state : finder.State)
        → Ascends finder cursor (page cursor state).items
    unfolding page get_messages_page_by_conversation dedupe_message_rows
    page-Ascends cursor state = take-Ascends limit cursor _ (
        dedupe-Ascends (limit + 1) [] 0 cursor _ (
          Ascends-from cursor (found finder conversation_id limit cursor state)
            (laws.ascending state _ _) (split-Every cursor _ (laws.matching state _ _))))

    -- The cursor of the last row, or the one given.
    abbrev reached : Option Cursor → List Row → Option Cursor
    reached cursor [] = cursor
    reached cursor (row ∷ rest) = reached (some (cursor_of row)) rest

    reached-last :
        (cursor : Option Cursor) (rows : List Row) (row : Row)
        → last_row rows ≡ some row
        → reached cursor rows ≡ some (cursor_of row)
    reached-last cursor [] row e = cc
    reached-last cursor (r ∷ []) row e = cc
    reached-last cursor (r ∷ (next ∷ rest)) row e =
        reached-last (some (cursor_of r)) (next ∷ rest) row e

    append-Ascends :
        (cursor : Option Cursor) (xs ys : List Row)
        → Ascends finder cursor xs
        → Ascends finder (reached cursor xs) ys
        → Ascends finder cursor (xs ++ ys)
    append-Ascends cursor [] ys s t = t
    append-Ascends cursor (x ∷ xs) ys (a, s) t = (a, append-Ascends (some (cursor_of x)) xs ys s t)

    next_of-reached :
        (cursor : Option Cursor) (rows : List Row) (more : Bool) (last : Option Row) (next : Cursor)
        → last_row rows ≡ last
        → next_of more last ≡ some next
        → reached cursor rows ≡ some next
    next_of-reached cursor rows true (some row) next l e = reached-last cursor rows row l ∙ e
    next_of-reached cursor rows true none next l e = cc
    next_of-reached cursor rows false last next l e = cc

    next-reached :
        (cursor : Option Cursor) (state : finder.State) (next : Cursor)
        → (page cursor state).next_cursor ≡ some next
        → reached cursor (page cursor state).items ≡ some next
    unfolding page get_messages_page_by_conversation
    next-reached cursor state next e =
        next_of-reached cursor (page cursor state).items
          (ltb limit (
            length (
              dedupe_message_rows js (limit + 1)
                (found finder conversation_id limit cursor state))))
          (last_row (page cursor state).items) next refl e

    follow-Ascends :
        (cursor : Option Cursor) (rows : List Row) (o : Option Cursor) (states : List finder.State)
        → ((next : Cursor) → o ≡ some next → reached cursor rows ≡ some next)
        → ((next : Cursor)
            → Ascends finder (some next) (walk finder js conversation_id limit states (some next)))
        → Ascends finder (reached cursor rows) (elim o as (λ _. List Row) [
          | none ↦ []
          | some next ↦ walk finder js conversation_id limit states (some next)
        ])
    follow-Ascends cursor rows none states r later = tt
    follow-Ascends cursor rows (some next) states r later =
        subst (λ c. Ascends finder c (walk finder js conversation_id limit states (some next)))
          (sym (r next refl)) (later next)

    pages-Ascends :
        (states : List finder.State) (cursor : Option Cursor)
        → Ascends finder cursor (walk finder js conversation_id limit states cursor)
    unfolding walk page
    pages-Ascends [] cursor = tt
    pages-Ascends (state ∷ rest) cursor =
        append-Ascends cursor (page cursor state).items _ (page-Ascends cursor state) (
          follow-Ascends cursor (page cursor state).items (page cursor state).next_cursor rest
            (next-reached cursor state) (λ next. pages-Ascends rest (some next)))

    -- Pages that are read each from the cursor of the one before show rows in strictly ascending order
    -- of time and id, the first after the first cursor, and no time and id twice, however the table
    -- changes between them; a row whose time is changed may show again at its new time.
    pub walk-Ascends :
        (states : List finder.State) (cursor : Option Cursor)
        → let rows = walk finder js conversation_id limit states cursor in
          Ascends finder cursor rows × Apart finder rows
    walk-Ascends states cursor =
        let rows = walk finder js conversation_id limit states cursor in
        (pages-Ascends states cursor, Ascends-Apart cursor rows (pages-Ascends states cursor))
