-- ===== src/Inputs/Tests.antt =====
-- Runs of the input functions, on ids without blanks in which only "Ann" has an upper case letter.
use linkedin_hyper_v.Prelude.{◌≡◌, refl, [], ◌∷◌, Every, if◌then◌else◌, str_eq, map_get, map_set}
use linkedin_hyper_v.Inputs.Identity.{
  Script, dedupe_account_ids, choose_all, choose, preferred, normalize_account_key,
}
use linkedin_hyper_v.Inputs.Identity.Laws.{IsListed, dedupe_account_ids-IsListed}

abbrev js : Script
js = record {
  trim = λ t. t;
  lower = λ t. if str_eq t "Ann" then "ann" else t;
  has_uppercase = λ t. str_eq t "Ann";
}

once : dedupe_account_ids js ("ann" ∷ "bob" ∷ "Ann" ∷ "" ∷ []) ≡ "Ann" ∷ "bob" ∷ []
unfolding dedupe_account_ids choose_all choose preferred normalize_account_key map_get map_set
once = refl

dedupe_account_ids_example :
    Every
      (IsListed js (dedupe_account_ids js ("ann" ∷ "bob" ∷ "Ann" ∷ "" ∷ [])))
      ("ann" ∷ "bob" ∷ "Ann" ∷ "" ∷ [])
dedupe_account_ids_example = dedupe_account_ids-IsListed js ("ann" ∷ "bob" ∷ "Ann" ∷ "" ∷ [])
