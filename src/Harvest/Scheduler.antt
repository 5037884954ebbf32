-- ===== src/Harvest/Scheduler.antt =====
-- worker/src/harvest/harvestScheduler.js: which task may run, and the token buckets. Weights are
-- scaled by the milliseconds of an hour, so that the age bonus is a whole number. The clock, the
-- known accounts, the verdicts of the anti-ban gate and the random gap are arguments.
pub mod Tokens
pub mod Choice
use linkedin_hyper_v.Prelude.{
  ℕ, ◌+◌, ◌-◌, ◌*◌, min, max, String, Bool, true, false, ◌&&◌, not, Option, none, some, List, [],
  ◌∷◌, ◌++◌, ltb, if◌then◌else◌, truthy, str_eq, template, map_get,
}
use linkedin_hyper_v.Redis.{Redis, incr_script, or_zero}
use linkedin_hyper_v.Harvest.State.{Script, Progress, priorities, is_eligible_now}

-- `hour` is the text of the current hour.
unfoldable pub window_key : String → String → String
window_key bucket hour = template (bucket ∷ ":" ∷ hour ∷ [])

pub record Budget : Type 0 where
  pub global_ops_per_hour : ℕ
  pub account_ops_per_hour : ℕ

abbrev pub account_bucket : String → String
account_bucket account = template ("harvest:bucket:acct:" ∷ account ∷ [])

module _ (r : Redis) where
  -- A rejected script counts as 0.
  unfoldable pub token_available :
      (bucket hour : String) (per_hour : ℕ) → r.Server → Bool × r.Server
  token_available bucket hour per_hour s =
      if r.up s
      then (let (used, s') = incr_script r (window_key bucket hour) 3700 s in
          if ltb per_hour used
          then (false, if r.up s' then r.decr (window_key bucket hour) s' else s')
          else (true, s'))
      else (true, s)

  unfoldable pub consume_tokens : Budget → (account hour : String) → r.Server → Bool × r.Server
  consume_tokens b account hour s =
      let (global, s₁) = token_available "harvest:bucket:global" hour b.global_ops_per_hour s in
      let (own, s₂) = token_available (account_bucket account) hour b.account_ops_per_hour s₁ in
      if not global then (false, s₁) else (own, s₂)

-- `Math.min(MAX_GAP_MS, Math.max(MIN_GAP_MS, rounded))`
unfoldable pub jitter_gap_ms : (min_gap_ms max_gap_ms rounded : ℕ) → ℕ
jitter_gap_ms min_gap_ms max_gap_ms rounded = min max_gap_ms (max min_gap_ms rounded)

abbrev hour_ms : ℕ
hour_ms = 3600000

pub record Task : Type 0 where
  pub account_id : String
  pub surface : String
  pub weight : ℕ
  pub state : Progress

-- The surface that the gate knows the state's surface by.
abbrev pub gate_surface : String → String
gate_surface surface =
    if str_eq surface "messages"
    then "thread"
    else (if str_eq surface "conversations" then "inbox" else surface)

-- `PRIORITY[surface] || 1`
abbrev priority_of : Option ℕ → ℕ
priority_of none = 1
priority_of (some p) = p

-- What the choice reads of the world: the time, whether the account is in business hours, and
-- whether the gate lets the account and surface pass.
pub record World : Type 0 where
  pub now : ℕ
  pub within_business_hours : String → Bool
  pub gate_allows : String → String → Bool

abbrev pub first_of_tasks : List Task → Option Task
first_of_tasks [] = none
first_of_tasks (t ∷ rest) = some t

module _ (js : Script) (w : World) where
  -- Up to 50 hours count. A date ahead of now (a negative bonus in the code) or one that cannot be
  -- read (NaN there) is taken for now.
  abbrev age_of : Option ℕ → ℕ
  age_of none = 0
  age_of (some t) = min (50 * hour_ms) (w.now - t)

  age_bonus : Progress → ℕ
  age_bonus st =
      if truthy st.last_success_at then age_of (js.time_of st.last_success_at) else 50 * hour_ms

  unfoldable pub task_of : String → Progress → Task
  unfolding age_bonus
  task_of account st = record {
    account_id = account;
    surface = st.surface;
    weight = priority_of (map_get priorities st.surface) * hour_ms + age_bonus st;
    state = st;
  }

  unfoldable pub is_candidate : String → Progress → Bool
  is_candidate account st =
      w.within_business_hours account
      && (is_eligible_now js st w.now && w.gate_allows account (gate_surface st.surface))

  unfoldable pub tasks_of : String → List Progress → List Task
  tasks_of account [] = []
  tasks_of account (st ∷ rest) =
      let later = tasks_of account rest in
      if is_candidate account st then task_of account st ∷ later else later

  -- The accounts that are known, each with the states of its surfaces.
  unfoldable pub candidates : List (String × List Progress) → List Task
  candidates [] = []
  candidates (a ∷ rest) =
      if truthy a.0 && not (str_eq a.0 "connect")
      then tasks_of a.0 a.1 ++ candidates rest
      else candidates rest

  -- `candidates.sort((a, b) => b.weight - a.weight)`, which keeps the order of equal weights.
  unfoldable pub place : Task → List Task → List Task
  place t [] = t ∷ []
  place t (u ∷ rest) = if ltb t.weight u.weight then u ∷ place t rest else t ∷ u ∷ rest

  unfoldable pub by_weight : List Task → List Task
  by_weight [] = []
  by_weight (t ∷ rest) = place t (by_weight rest)

  unfoldable pub pick_next_task : List (String × List Progress) → Option Task
  pick_next_task accounts = first_of_tasks (by_weight (candidates accounts))
