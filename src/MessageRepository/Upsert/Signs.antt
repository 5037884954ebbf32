-- ===== src/MessageRepository/Upsert/Signs.antt =====
-- The signs by which a row of the table is taken for an observed message, apart from how `upsertMessage`
-- searches for them.
use linkedin_hyper_v.Prelude.{
  ℕ, ◌+◌, ◌-◌, ◌≡◌, refl, String, Bool, false, ◌&&◌, ◌||◌, Option, none, some, List, [], ◌∷◌, any,
  arith, truthy, str_eq, starts_with, leb, ◌==◌,
}
use linkedin_hyper_v.Normalizer.{Script, text_of}
use linkedin_hyper_v.Normalizer.Keys.{Printing}
use linkedin_hyper_v.MessageRepository.{Row, or_id, normalize_message_text}
use linkedin_hyper_v.MessageRepository.Upsert.Data.{Observed, durable_id, canonical_dedupe_key}
use linkedin_hyper_v.MessageRepository.Upsert.Conflicts.{same_text}

abbrev pub is_text : String → Option String → Bool
is_text text none = false
is_text text (some other) = str_eq other text

pub same_text_lem :
    (js : Script) (text : String) (o : Option String) → same_text js text o ≡ is_text text o
same_text_lem js text none = refl
same_text_lem js text (some other) = refl

pub any_same :
    (p q : Row → Bool) (rows : List Row) → ((row : Row) → p row ≡ q row) → any p rows ≡ any q rows
any_same p q [] e = refl
any_same p q (row ∷ rest) e = ground (arith, e row, any_same p q rest e)

module _ (js : Script) (p : Printing) (now : ℕ) (o : Observed) where
  -- The account's row of the conversation with the key; with the durable id.
  abbrev pub has_key : Row → Bool
  has_key row =
      str_eq row.account_id o.account_id
      && (str_eq row.conversation_id o.conversation_id
          && is_text (canonical_dedupe_key js p now o) row.dedupe_key)

  abbrev pub has_external : (id : String) → Row → Bool
  has_external id row = str_eq row.account_id o.account_id && is_text id row.external_id

  -- The conversation's row with the hash; with the sender and the text.
  abbrev pub has_hash : Row → Bool
  has_hash row =
      str_eq row.conversation_id o.conversation_id
      && is_text (text_of o.content_hash) row.content_hash

  abbrev pub has_sender_and_text : Row → Bool
  has_sender_and_text row =
      str_eq row.conversation_id o.conversation_id
      && (str_eq row.sender_id o.sender_id && str_eq row.text (normalize_message_text js o.text))

  -- The conversation's row that the account sent itself, with the text, within 10 minutes.
  abbrev pub has_own_send : Row → Bool
  has_own_send row =
      str_eq row.conversation_id o.conversation_id
      && (str_eq row.sender_id "__self__"
          && (str_eq row.text (normalize_message_text js o.text)
              && (leb (o.sent_at - 600000) row.sent_at && leb row.sent_at (o.sent_at + 600000))))

  -- The conversation's row with the time and the text.
  abbrev pub has_time_and_text : Row → Bool
  has_time_and_text row =
      str_eq row.conversation_id o.conversation_id
      && (row.sent_at == o.sent_at && str_eq row.text (normalize_message_text js o.text))

  abbrev pub any_external : Option String → List Row → Bool
  any_external none rows = false
  any_external (some id) rows = any (has_external id) rows

  -- A message that this account sends.
  abbrev pub is_self_send : Bool
  is_self_send =
      o.is_sent_by_me
      && (str_eq o.source "optimistic"
          || (starts_with (or_id o.external_id o.linkedin_message_id) "optimistic-"
              || str_eq o.sender_id "__self__"))

  -- Some row has one of the signs.
  abbrev pub has_sign : List Row → Bool
  has_sign rows =
      (truthy (canonical_dedupe_key js p now o) && any has_key rows)
      || (any_external (durable_id js p now o) rows
          || ((truthy (text_of o.content_hash) && any has_hash rows)
              || ((truthy (normalize_message_text js o.text) && any has_sender_and_text rows)
                  || ((is_self_send && any has_own_send rows) || any has_time_and_text rows))))
