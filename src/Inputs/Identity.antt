-- ===== src/Inputs/Identity.antt =====
-- worker/src/accountIdentity.js: spellings of account ids. `trim`, `toLowerCase`, the test for an
-- upper case letter, the database and the list of known accounts are arguments. The final sorting of
-- the ids by locale is the caller's order here.
pub mod Laws
use linkedin_hyper_v.Prelude.{
  String, Bool, true, false, ◌&&◌, not, Option, none, some, List, [], ◌∷◌, map, if◌then◌else◌,
  truthy, or_text, str_eq, TextMap, map_get, map_set,
}

pub record Script : Type 0 where
  pub trim : String → String
  pub lower : String → String
  pub has_uppercase : String → Bool

module _ (js : Script) where
  unfoldable pub normalize_account_key : String → String
  normalize_account_key value = js.lower (js.trim value)

  -- The spelling that is kept for a key, when another one comes.
  unfoldable pub preferred : Option String → String → String
  preferred none raw = raw
  preferred (some previous) raw =
      if truthy previous && not (not (js.has_uppercase previous) && js.has_uppercase raw)
      then previous
      else raw

  unfoldable pub choose : TextMap String → String → TextMap String
  choose chosen candidate =
      let raw = js.trim candidate in
      let key = normalize_account_key raw in
      if truthy raw then map_set chosen key (preferred (map_get chosen key) raw) else chosen

  unfoldable pub choose_all : TextMap String → List String → TextMap String
  choose_all chosen [] = chosen
  choose_all chosen (candidate ∷ rest) = choose_all (choose chosen candidate) rest

  -- `Array.from(chosen.values())`
  unfoldable pub dedupe_account_ids : List String → List String
  dedupe_account_ids ids = map (λ e. e.1) (choose_all [] ids)

  unfoldable pub find_known : String → List String → Option String
  find_known key [] = none
  find_known key (id ∷ rest) =
      if str_eq (normalize_account_key id) key then some id else find_known key rest

  abbrev known_or : Option String → String → String
  known_or none raw = raw
  known_or (some id) raw = or_text id raw

  abbrev db_or : Option String → String → String
  db_or none other = other
  db_or (some id) other = or_text id other

  -- `db` is what `findCaseInsensitive` answers for the trimmed id, `known` the known ids; both are
  -- empty where the call is rejected.
  unfoldable pub resolve_canonical_account_id :
      (db : String → Option String) (known : List String) (account_id : String) → String
  resolve_canonical_account_id db known account_id =
      let raw = js.trim account_id in
      if truthy raw
      then db_or (db raw) (known_or (find_known (normalize_account_key raw) known) raw)
      else raw
