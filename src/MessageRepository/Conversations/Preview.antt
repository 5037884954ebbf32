-- ===== src/MessageRepository/Conversations/Preview.antt =====
-- The preview of a conversation, under an upsert.
use linkedin_hyper_v.Prelude.{ℕ, ◌≡◌, String, Bool, some, arith, if◌then◌else◌, truthy}
use linkedin_hyper_v.Normalizer.{Script}
use linkedin_hyper_v.MessageRepository.Conversations.{
  Data, Conversation, Changes, Prisma, or_number, update_of, create_of, upsert_conversation,
}

-- What is relied on of the database's `upsert`: a field that is `undefined` keeps its value, any other
-- is written.
pub record UpsertLaws (db : Prisma) : Type 0 where
  pub at :
      (id : String) (u : Changes) (n c : Conversation) (s : db.State)
      → db.find_conversation id s ≡ some c
      → (db.upsert id u n s).0.last_message_at ≡ or_number u.last_message_at c.last_message_at
  pub text :
      (id : String) (u : Changes) (n c : Conversation) (s : db.State)
      → db.find_conversation id s ≡ some c
      → (db.upsert id u n s).0.last_message_text ≡ or_number u.last_message_text c.last_message_text
  pub mine :
      (id : String) (u : Changes) (n c : Conversation) (s : db.State)
      → db.find_conversation id s ≡ some c
      → (db.upsert id u n s).0.last_message_sent_by_me
        ≡ or_number u.last_message_sent_by_me c.last_message_sent_by_me
  pub count :
      (id : String) (u : Changes) (n c : Conversation) (s : db.State)
      → db.find_conversation id s ≡ some c
      → (db.upsert id u n s).0.message_count ≡ or_number u.message_count c.message_count

-- The last message of a conversation: its time, its text and whether it is the account's.
abbrev pub preview : Conversation → ℕ × String × Bool
preview c = (c.last_message_at, c.last_message_text, c.last_message_sent_by_me)

abbrev pub carried : Data → ℕ × String × Bool
carried item = (item.last_message_at, item.last_message_text, item.last_message_sent_by_me)

module _ (db : Prisma) (laws : UpsertLaws db) (js : Script) where
  -- An upsert replaces the whole preview of a conversation that is there if the item has a message's
  -- text, and leaves all of it otherwise; the count of messages changes only if the item has one.
  pub upsert_conversation-preview :
      (now : ℕ) (item : Data) (c : Conversation) (state : db.State)
      → db.find_conversation item.id state ≡ some c
      → let row = (upsert_conversation db js now item state).0 in
        (preview row ≡ (if truthy item.last_message_text then carried item else preview c))
        × (row.message_count ≡ or_number item.message_count c.message_count)
  unfolding upsert_conversation update_of
  upsert_conversation-preview now item c state found =
      let u = update_of js now item in
      let n = create_of js now item in
      (
        rw
            (
              laws.at item.id u n c state found,
              laws.text item.id u n c state found,
              laws.mine item.id u n c state found,
            )
            (ground arith),
        laws.count item.id u n c state found,
      )
