-- ===== src/Normalizer/Messages/Identity.antt =====
-- Which observations of a message get one key.
use linkedin_hyper_v.Prelude.{
  ℕ, ◌≡◌, ◌≢◌, refl, sym, ◌∙◌, String, true, false, Option, none, some, [], ◌∷◌, arith, truthy,
  or_text, template,
}
use linkedin_hyper_v.Normalizer.{
  Script, normalize_whitespace, clean_linked_in_message_text, nullable_string,
  is_durable_linked_in_message_id,
}
use linkedin_hyper_v.Normalizer.Json.{Json, Fields, stable_hash}
use linkedin_hyper_v.Normalizer.Dates.{Pattern, infer_date_from_day_label}
use linkedin_hyper_v.Normalizer.Keys.{
  Seed, Printing, text_field, linkedin_key, build_message_dedupe_key,
}
use linkedin_hyper_v.Normalizer.Messages.{
  Input, durable_of, durable_external_id, seed_of, normalize_message,
}

-- A durable id is kept by a second normalization.
durable-nullable :
    (js : Script) (id : String)
    → is_durable_linked_in_message_id js id ≡ true
    → nullable_string js id ≡ some (normalize_whitespace js id)
unfolding is_durable_linked_in_message_id nullable_string
durable-nullable js id h = ground arith

-- The key of a seed with a durable id.
build-durable :
    (js : Script) (p : Printing) (s : Seed)
    → is_durable_linked_in_message_id js s.external_id ≡ true
    → build_message_dedupe_key js p s ≡ linkedin_key js p s (normalize_whitespace js s.external_id)
unfolding build_message_dedupe_key
build-durable js p s d = rw (d, durable-nullable js s.external_id d) refl

module _ (js : Script) (pattern_of : Pattern) (p : Printing) where
  durable_of-some :
      (o : Option String) (id : String)
      → durable_of js pattern_of p o ≡ some id
      → is_durable_linked_in_message_id js id ≡ true
  durable_of-some none id h = cc
  durable_of-some (some x) id h = ground arith

  durable-is_durable :
      (input : Input) (id : String)
      → durable_external_id js pattern_of p input ≡ some id
      → is_durable_linked_in_message_id js id ≡ true
  unfolding durable_external_id
  durable-is_durable input id h = durable_of-some _ id h

  -- The key of a message with a durable id is made of the account, the conversation and that id.
  dedupe_key-durable :
      (account conversation : String) (now : ℕ) (input : Input) (id : String)
      → durable_external_id js pattern_of p input ≡ some id
      → (normalize_message js pattern_of p account conversation now input).dedupe_key
        ≡ template (
            "linkedin:"
            ∷ stable_hash p.hashing (
                Json.object (
                  text_field "accountId" account (
                    text_field "conversationId"
                      (js.trim conversation)
                      (text_field "externalId" (normalize_whitespace js id) Fields.end))))
            ∷ [])
  unfolding normalize_message seed_of linkedin_key
  dedupe_key-durable account conversation now input id h =
      build-durable js p (seed_of js pattern_of p account conversation now input)
        (rw h (durable-is_durable input id h))
      ∙ rw h refl

  -- Two observations of one conversation with one durable id get one key, whatever else differs.
  pub normalize_message-durable :
      (account conversation : String) (now later : ℕ) (input again : Input) (id : String)
      → durable_external_id js pattern_of p input ≡ some id
      → durable_external_id js pattern_of p again ≡ some id
      → (normalize_message js pattern_of p account conversation now input).dedupe_key
        ≡ (normalize_message js pattern_of p account conversation later again).dedupe_key
  normalize_message-durable account conversation now later input again id h k =
      dedupe_key-durable account conversation now input id h
      ∙ sym (dedupe_key-durable account conversation later again id k)

  -- The object that is hashed for a key by time.
  abbrev pub timestamp_object : (account conversation sender text sent_at : String) → Json
  timestamp_object account conversation sender text sent_at = Json.object (
      text_field "accountId" account (
        text_field "conversationId" conversation (
          text_field "sender" sender
            (text_field "text" text (text_field "sentAt" sent_at Fields.end)))))

  -- The hash tells apart objects that differ in their time.
  abbrev pub Separates : Type 0
  Separates =
      (account conversation sender text t u : String)
      → t ≢ u
      → stable_hash p.hashing (timestamp_object account conversation sender text t)
        ≢ stable_hash p.hashing (timestamp_object account conversation sender text u)

  -- A message with no date of any kind, and a text.
  abbrev pub IsUndated : Input → Type 0
  IsUndated input =
      (durable_external_id js pattern_of p input ≡ none)
      × (truthy (or_text input.created_at input.sent_at) ≡ false)
      × ((now : ℕ)
          → infer_date_from_day_label js pattern_of now input.raw.day_label input.raw.time_text
            ≡ none)
      × (truthy (clean_linked_in_message_text js (clean_linked_in_message_text js input.text))
          ≡ true)
