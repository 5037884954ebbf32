-- ===== src/MessageRepository/Tests.antt =====
-- A table of few rows, on which the repository runs.
use linkedin_hyper_v.Prelude.{
  ℕ, zero, suc, ◌≤◌, ◌≡◌, ◌⊎◌, refl, inl, inr, arith, includes, String, Bool, true, false, none,
  some, List, [], ◌∷◌, length, take, Every,
}
use linkedin_hyper_v.Normalizer.Plain.{js}
use linkedin_hyper_v.Normalizer.TextOrder.{text_before, transitive_lem, asymmetric_lem}
use linkedin_hyper_v.MessageRepository.{Row, rank_message_for_survival}
use linkedin_hyper_v.MessageRepository.Dedupe.{Covered}
use linkedin_hyper_v.MessageRepository.Pages.{
  Finder, MessagesPage, walk, get_messages_page_by_conversation,
}
use linkedin_hyper_v.MessageRepository.Pages.Walk.{FinderLaws, Ascends, Apart, walk-Ascends}
use linkedin_hyper_v.MessageRepository.Pages.Whole.{
  IsShown, is_wanted, get_messages_page_by_conversation_lem,
}
use linkedin_hyper_v.MessageRepository.Cleanup.{find_duplicates}
use linkedin_hyper_v.MessageRepository.Cleanup.Best.{IsIn, group_of, find_duplicates-best}
use linkedin_hyper_v.Harvest.State.Strokes.{strokes}

abbrev row_at : (id key text : String) (sent_at identity : ℕ) → Row
row_at id key text sent_at identity = record {
  id = id;
  conversation_id = "t";
  account_id = "me";
  external_id = none;
  dedupe_key = some key;
  visibility_state = "visible";
  is_canonical = true;
  identity_confidence = identity;
  sender_confidence = 95;
  timestamp_confidence = 100;
  observed_at = none;
  source_run_id = none;
  sender_id = "ann";
  sender_name = "Ann";
  text = text;
  sent_at = sent_at;
  is_sent_by_me = false;
  linkedin_message_id = none;
  content_hash = none;
  source = "linkedin";
  raw = none;
  created_at = sent_at;
}

-- Two observations of one message, and another message.
abbrev hi : Row
hi = row_at "1" "a" "hi" 1 80

abbrev hi_again : Row
hi_again = row_at "2" "a" "hi" 2 100

abbrev bye : Row
bye = row_at "3" "b" "bye" 3 100

abbrev rows : List Row
rows = hi ∷ hi_again ∷ bye ∷ []

-- The database, asked of the first and the last row.
abbrev matched : Bool → Bool → List Row
matched true true = hi ∷ bye ∷ []
matched true false = hi ∷ []
matched false true = bye ∷ []
matched false false = []

abbrev finder : Finder
finder = record {
  State = Unit;
  find_many = λ s matches n. take n (matched (matches hi) (matches bye));
  before = text_before;
}

in_order : (a b : Bool) (n : ℕ) → Ascends finder none (take n (matched a b))
in_order true true zero = tt
in_order true true (suc zero) = (tt, tt)
in_order true true (suc (suc zero)) = (tt, (inl (omega arith), tt))
in_order true true (suc (suc (suc n))) = (tt, (inl (omega arith), tt))
in_order true false zero = tt
in_order true false (suc zero) = (tt, tt)
in_order true false (suc (suc n)) = (tt, tt)
in_order false true zero = tt
in_order false true (suc zero) = (tt, tt)
in_order false true (suc (suc n)) = (tt, tt)
in_order false false zero = tt
in_order false false (suc n) = tt

matching :
    (matches : Row → Bool) (a b : Bool) (n : ℕ)
    → matches hi ≡ a
    → matches bye ≡ b
    → Every (λ row. matches row ≡ true) (take n (matched a b))
matching matches true true zero h k = tt
matching matches true true (suc zero) h k = (h, tt)
matching matches true true (suc (suc zero)) h k = (h, (k, tt))
matching matches true true (suc (suc (suc n))) h k = (h, (k, tt))
matching matches true false zero h k = tt
matching matches true false (suc zero) h k = (h, tt)
matching matches true false (suc (suc n)) h k = (h, tt)
matching matches false true zero h k = tt
matching matches false true (suc zero) h k = (k, tt)
matching matches false true (suc (suc n)) h k = (k, tt)
matching matches false false zero h k = tt
matching matches false false (suc n) h k = tt

finder_laws : FinderLaws finder
finder_laws = record {
  ascending = λ s matches n. in_order (matches hi) (matches bye) n;
  matching = λ s matches n. matching matches (matches hi) (matches bye) n refl refl;
  transitive = transitive_lem;
  irreflexive = λ i. ground (arith, asymmetric_lem i i);
}

walk_example :
    Ascends finder none (walk finder js "t" 1 (tt ∷ tt ∷ []) none)
    × Apart finder (walk finder js "t" 1 (tt ∷ tt ∷ []) none)
walk_example = walk-Ascends finder finder_laws js "t" 1 (tt ∷ tt ∷ []) none

-- The first page of one row.
abbrev first_page : MessagesPage
first_page = get_messages_page_by_conversation finder js "t" 1 none tt

get_messages_page_example :
    (length first_page.items ≤ 1)
    × Every (IsShown "t") first_page.items
    × ((first_page.has_more ≡ true)
        ⊎ Covered js 1 [] first_page.items (finder.find_many tt (is_wanted finder "t" none) 4))
get_messages_page_example =
    get_messages_page_by_conversation_lem finder finder_laws js "t" 1 none tt

find_duplicates_example :
    ((s : Row) × IsIn s rows
      × (group_of js strokes s ≡ group_of js strokes hi)
      × (rank_message_for_survival js hi ≤ rank_message_for_survival js s)
      × (includes (find_duplicates js strokes rows [] []).1 s.id ≡ false))
    × ((includes (find_duplicates js strokes rows [] []).1 hi.id ≡ true)
        ⊎ (includes (find_duplicates js strokes rows [] []).1 hi_again.id ≡ true)
        ⊎ (hi.id ≡ hi_again.id))
find_duplicates_example =
    find_duplicates-best js strokes rows hi hi_again (refl, (refl, (refl, tt))) (inl refl)
      (inr (inl refl)) refl
