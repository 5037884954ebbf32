-- ===== src/MessageRepository/Cleanup.antt =====
-- Quarantine of a conversation's repeated rows. The queries are arguments; `show` prints a number.
pub mod Survivors
pub mod Best
use linkedin_hyper_v.Prelude.{
  ℕ, ◌+◌, ◌*◌, ◌/◌, ◌≤◌, String, Bool, true, false, Option, none, some, List, [], ◌∷◌, ◌++◌,
  if◌then◌else◌, truthy, str_eq, template, TextMap, map_get, map_set, leb,
}
use linkedin_hyper_v.Normalizer.{Script, text_of}
use linkedin_hyper_v.MessageRepository.{Row, normalize_message_text, rank_message_for_survival}

-- `listed` is ordered by `sentAt`, `createdAt` and `id`; `quarantine` hides the rows with these ids
-- and counts them.
pub record Table : Type 1 where
  pub State : Type 0
  pub listed : State → (Row → Bool) → List Row
  pub quarantine : State → List String → State × ℕ
  pub refresh_conversation_stats : (conversation_id : String) → State → State
  pub show : ℕ → String

module _ (js : Script) (show : ℕ → String) where
  unfoldable pub cleanup_key : Row → String
  cleanup_key row =
      if truthy (text_of row.dedupe_key)
      then template ("dedupe:" ∷ text_of row.dedupe_key ∷ [])
      else (if truthy (text_of row.content_hash)
          then template ("hash:" ∷ text_of row.content_hash ∷ [])
          else template (
              "fuzzy|"
              ∷ row.sender_id
              ∷ "|"
              ∷ normalize_message_text js row.text
              ∷ "|"
              ∷ show (row.sent_at / 600000)
              ∷ []))

  abbrev pub survivor_of : (existing message : Row) → Row
  survivor_of existing message =
      if leb (rank_message_for_survival js message) (rank_message_for_survival js existing)
      then existing
      else message

  abbrev pub duplicate_of : (existing message : Row) → Row
  duplicate_of existing message =
      if str_eq (survivor_of existing message).id message.id then existing else message

  abbrev pub settled : Option Row → TextMap Row → List String → Row → TextMap Row × List String
  settled none seen duplicates message = (map_set seen (cleanup_key message) message, duplicates)
  settled (some existing) seen duplicates message = (
    map_set seen (cleanup_key message) (survivor_of existing message),
    duplicates ++ ((duplicate_of existing message).id ∷ []),
  )

  -- The loop: the row of each key, and the ids of the others.
  unfoldable pub find_duplicates : List Row → TextMap Row → List String → TextMap Row × List String
  find_duplicates [] seen duplicates = (seen, duplicates)
  find_duplicates (message ∷ rest) seen duplicates =
      let (seen', duplicates') =
        settled (map_get seen (cleanup_key message)) seen duplicates message in
      find_duplicates rest seen' duplicates'

unfoldable pub cleanup_conversation_duplicates :
    (js : Script) (table : Table) (conversation_id : String) → table.State → table.State × ℕ
cleanup_conversation_duplicates js table conversation_id state =
    let rows = table.listed state (λ row. str_eq row.conversation_id conversation_id) in
    elim (find_duplicates js table.show rows [] []).1 [
      | [] ↦ (state, 0)
      | id ∷ rest ↦
          let (state', count) = table.quarantine state (id ∷ rest) in
          (table.refresh_conversation_stats conversation_id state', count)
    ]
