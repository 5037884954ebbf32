-- ===== src/Normalizer/Records/Ids.antt =====
-- The ids of conversations.
use Prim.Native.String
use text.Mathlib.TextLemmas.{append_assoc, append-nil}
use text.Mathlib.TextPositions.{slice-append_left, slice-append_right, len-append}
use text.Mathlib.TextEquality.{eq_iff}
use linkedin_hyper_v.Prelude.{ℕ, ◌≡◌, refl, sym, ap, ◌∙◌, String, [], ◌∷◌, template}
use linkedin_hyper_v.Normalizer.{Script, conversation_external_id}
use linkedin_hyper_v.Normalizer.Records.{Text, ConversationInput, normalize_conversation}

cut_prefix :
    (js : Script) (account external : String)
    → conversation_external_id js account (String.◌++◌ (String.◌++◌ account ":") external)
      ≡ external
unfolding conversation_external_id
cut_prefix js account external =
    let p = String.◌++◌ account ":" in
    rw (slice-append_left p external, len-append p external, (eq_iff p p).1 refl)
      (slice-append_right p external)

id_form :
    (account external : String)
    → template (account ∷ ":" ∷ external ∷ []) ≡ String.◌++◌ (String.◌++◌ account ":") external
id_form account external =
    ap (λ t. String.◌++◌ account (String.◌++◌ ":" t)) (append-nil external)
    ∙ sym (append_assoc account ":" external)

-- Read again by the id it is stored under, a conversation keeps its external id.
pub conversation_external_id-normalize_conversation :
    (x : Text) (account : String) (now : ℕ) (input : ConversationInput)
    → conversation_external_id x.js account (normalize_conversation x account now input).id
      ≡ (normalize_conversation x account now input).external_id
unfolding normalize_conversation
conversation_external_id-normalize_conversation x account now input =
    ap (conversation_external_id x.js account) (id_form account _) ∙ cut_prefix x.js account _
