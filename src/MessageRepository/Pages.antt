-- ===== src/MessageRepository/Pages.antt =====
-- Pages of the messages of a conversation. The database's `findMany`, in ascending order of `sentAt`
-- and `id`, is an argument, with its order of ids.
pub mod Walk
pub mod Whole
use linkedin_hyper_v.Prelude.{
  ℕ, zero, suc, ◌+◌, ◌*◌, ◌≤◌, ◌<◌, ◌≡◌, max, String, Bool, true, false, ◌||◌, ◌&&◌, Option, none,
  some, List, [], ◌∷◌, ◌++◌, if◌then◌else◌, str_eq, ltb, ◌==◌, length, take,
}
use linkedin_hyper_v.Normalizer.{Script}
use linkedin_hyper_v.MessageRepository.{Row}
use linkedin_hyper_v.MessageRepository.Dedupe.{dedupe_message_rows}

-- A cursor without an id or a time is none.
pub record Cursor : Type 0 where
  pub id : String
  pub sent_at : ℕ

-- `find_many state where take`, and the order of ids.
pub record Finder : Type 1 where
  pub State : Type 0
  pub find_many : State → (Row → Bool) → (take : ℕ) → List Row
  pub before : String → String → Bool

pub record MessagesPage : Type 0 where
  pub items : List Row
  pub has_more : Bool
  pub next_cursor : Option Cursor

abbrev pub cursor_of : Row → Cursor
cursor_of row = record { id = row.id; sent_at = row.sent_at }

abbrev pub last_row : List Row → Option Row
last_row [] = none
last_row (row ∷ []) = some row
last_row (row ∷ (next ∷ rest)) = last_row (next ∷ rest)

abbrev pub next_of : Bool → Option Row → Option Cursor
next_of true (some row) = some (cursor_of row)
next_of true none = none
next_of false row = none

module _ (finder : Finder) where
  abbrev pub after : Option Cursor → Row → Bool
  after none row = true
  after (some c) row =
      ltb c.sent_at row.sent_at || (c.sent_at == row.sent_at && finder.before c.id row.id)

  unfoldable pub shown_in : (conversation_id : String) → Row → Bool
  shown_in conversation_id row =
      str_eq row.conversation_id conversation_id
      && (str_eq row.visibility_state "visible" && row.is_canonical)

  abbrev pub found :
      (conversation_id : String) (limit : ℕ) (cursor : Option Cursor) (state : finder.State)
      → List Row
  found conversation_id limit cursor state =
      finder.find_many state (λ row. shown_in conversation_id row && after cursor row)
        (max (limit * 3 + 1) (limit + 1))

  unfoldable pub get_messages_page_by_conversation :
      (js : Script) (conversation_id : String) (limit : ℕ) (cursor : Option Cursor)
      (state : finder.State)
      → MessagesPage
  get_messages_page_by_conversation js conversation_id limit cursor state =
      let deduped = dedupe_message_rows js (limit + 1) (found conversation_id limit cursor state) in
      let has_more = ltb limit (length deduped) in
      let items = take limit deduped in
      record { items = items; has_more = has_more; next_cursor = next_of has_more (last_row items) }

  unfoldable pub get_messages_by_conversation :
      (js : Script) (rows_from : finder.State → (Row → Bool) → (take skip : ℕ) → List Row)
      (conversation_id : String) (limit offset : ℕ) (state : finder.State)
      → List Row
  get_messages_by_conversation js rows_from conversation_id limit offset state =
      dedupe_message_rows js limit
        (rows_from state (shown_in conversation_id) (max (limit * 2) limit) offset)

  -- The rows of the pages, each read from the table as it stands by then.
  unfoldable pub walk :
      (js : Script) (conversation_id : String) (limit : ℕ)
      → List finder.State
      → Option Cursor
      → List Row
  walk js conversation_id limit [] cursor = []
  walk js conversation_id limit (state ∷ rest) cursor =
      let page = get_messages_page_by_conversation js conversation_id limit cursor state in
      page.items ++ elim page.next_cursor as (λ _. List Row) [
        | none ↦ []
        | some next ↦ walk js conversation_id limit rest (some next)
      ]
