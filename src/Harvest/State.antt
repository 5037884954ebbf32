-- ===== src/Harvest/State.antt =====
-- worker/src/harvest/harvestState.js: the progress of each account and surface, a hash of texts in
-- Redis. How JavaScript prints and reads numbers and dates is an argument.
pub mod Stored
pub mod Strokes
use linkedin_hyper_v.Prelude.{
  ℕ, ◌≡◌, String, Bool, true, false, Option, none, some, List, [], ◌∷◌, map, leb, ltb,
  if◌then◌else◌, truthy, str_eq, template, TextMap, map_get,
}
use linkedin_hyper_v.Redis.{Redis, Hashes, or_zero}

-- `Number(text)` (`none` is NaN), `String(n)`, `new Date(text).getTime()` (`none` is an invalid
-- date), `new Date(ms).toISOString()`, and the number behind "start=" in a cursor.
pub record Script : Type 0 where
  pub number : String → Option ℕ
  pub show : ℕ → String
  pub time_of : String → Option ℕ
  pub iso : ℕ → String
  pub start_of : String → Option ℕ

-- What is relied on: printing and reading undo one another, and no date prints as the empty text.
pub record ScriptLaws (js : Script) : Type 0 where
  pub number-show : (n : ℕ) → js.number (js.show n) ≡ some n
  pub time_of-iso : (n : ℕ) → js.time_of (js.iso n) ≡ some n
  pub truthy-iso : (n : ℕ) → truthy (js.iso n) ≡ true
  pub start_of-show : (n : ℕ) → js.start_of (template ("start=" ∷ js.show n ∷ [])) ≡ some n

abbrev pub surfaces : List String
surfaces =
    "conversations" ∷ "messages" ∷ "connections" ∷ "invitations" ∷ "notifications" ∷ "profiles"
    ∷ "posts" ∷ []

abbrev pub priorities : TextMap ℕ
priorities =
    ("conversations", 100)
    ∷ ("messages", 80)
    ∷ ("invitations", 60)
    ∷ ("notifications", 55)
    ∷ ("connections", 30)
    ∷ ("profiles", 20)
    ∷ ("posts", 10)
    ∷ []

pub record Progress : Type 0 where
  pub account_id : String
  pub surface : String
  pub phase : String
  pub cursor : String
  pub total_estimate : ℕ
  pub fetched : ℕ
  pub last_run_at : String
  pub last_success_at : String
  pub next_eligible_at : String
  pub consecutive_failures : ℕ
  pub completed_at : String

unfoldable pub key : String → String → String
key a s = template ("harvest:" ∷ a ∷ ":" ∷ s ∷ [])

abbrev pub defaults : String → String → Progress
defaults account surface = record {
  account_id = account;
  surface = surface;
  phase = "idle";
  cursor = "";
  total_estimate = 0;
  fetched = 0;
  last_run_at = "";
  last_success_at = "";
  next_eligible_at = "";
  consecutive_failures = 0;
  completed_at = "";
}

module _ (js : Script) where
  abbrev text_or : Option String → String → String
  text_or none d = d
  text_or (some v) d = v

  -- `Number(raw.x) || 0`
  abbrev number_of : Option String → ℕ
  number_of none = 0
  number_of (some v) = or_zero (js.number v)

  -- `{ ...d, ...raw }` with the three numbers read.
  unfoldable pub spread : TextMap String → String → String → Progress
  spread raw account surface = record {
    account_id = text_or (map_get raw "accountId") account;
    surface = text_or (map_get raw "surface") surface;
    phase = text_or (map_get raw "phase") "idle";
    cursor = text_or (map_get raw "cursor") "";
    total_estimate = number_of (map_get raw "totalEstimate");
    fetched = number_of (map_get raw "fetched");
    last_run_at = text_or (map_get raw "lastRunAt") "";
    last_success_at = text_or (map_get raw "lastSuccessAt") "";
    next_eligible_at = text_or (map_get raw "nextEligibleAt") "";
    consecutive_failures = number_of (map_get raw "consecutiveFailures");
    completed_at = text_or (map_get raw "completedAt") "";
  }

  unfoldable pub coerce : TextMap String → String → String → Progress
  coerce [] account surface = defaults account surface
  coerce (field ∷ fields) account surface = spread (field ∷ fields) account surface

  -- `date <= now`, false for an invalid date.
  abbrev is_past : Option ℕ → ℕ → Bool
  is_past none now = false
  is_past (some t) now = leb t now

  abbrev is_ahead : Option ℕ → ℕ → Bool
  is_ahead none now = false
  is_ahead (some t) now = ltb now t

  unfoldable pub is_eligible_now : Progress → ℕ → Bool
  is_eligible_now st now =
      if str_eq st.phase "caught_up"
      then (if truthy st.next_eligible_at
          then is_past (js.time_of st.next_eligible_at) now
          else true)
      else (if str_eq st.phase "blocked"
          then (if truthy st.next_eligible_at
              then is_past (js.time_of st.next_eligible_at) now
              else false)
          else (if truthy st.next_eligible_at
              then (if is_ahead (js.time_of st.next_eligible_at) now then false else true)
              else true))

  module _ (r : Redis) (h : Hashes r) where
    unfoldable pub get : String → String → r.Server → Progress
    get account surface s =
        if r.up s
        then coerce (h.hgetall (key account surface) s) account surface
        else coerce [] account surface

    pub get_all : String → r.Server → List Progress
    get_all account s = map (λ surface. get account surface s) surfaces

    -- The new state of the server; what the function answers is `get` of that.
    unfoldable pub patch : String → String → TextMap String → r.Server → r.Server
    patch account surface fields s = if r.up s then h.hset (key account surface) fields s else s

    unfoldable pub reset : String → String → r.Server → r.Server
    reset account surface s = if r.up s then r.del (key account surface) s else s
