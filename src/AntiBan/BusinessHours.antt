-- ===== src/AntiBan/BusinessHours.antt =====
-- The business-hours gate of worker/src/antiBan.js. The local time of the account's zone, which
-- `toLocaleString` works out, is an argument: a weekday (0 is Sunday) and the milliseconds since
-- midnight. Days have 24 hours here: where the clocks change between now and the next window, the
-- source's wait is an hour off.
use linkedin_hyper_v.Prelude.{
  ℕ, zero, suc, ◌+◌, ◌-◌, ◌*◌, ◌/◌, ◌%◌, ◌≤◌, ◌<◌, max, ◌≡◌, String, Bool, true, false, ◌&&◌, ◌||◌,
  not, Option, none, some, arith, ltb, leb, ◌==◌, if◌then◌else◌, str_eq,
}
use linkedin_hyper_v.Prelude.Int.{ℤ, pos, negsuc}

-- `envInt`, given what `parseInt` answers (`none` is NaN).
pub env_int : Option ℤ → ℕ → ℕ
env_int (some (pos v)) fallback = if ltb 0 v then v else fallback
env_int (some (negsuc n)) fallback = fallback
env_int none fallback = fallback

-- `envBool`, of the variable's text in lower case.
pub env_bool : String → Bool → Bool
env_bool v fallback =
    if str_eq v "1" || (str_eq v "true" || str_eq v "yes")
    then true
    else (if str_eq v "0" || (str_eq v "false" || str_eq v "no") then false else fallback)

pub record Hours : Type 0 where
  pub enabled : Bool
  pub allow_weekends : Bool
  pub start_hour : ℕ
  pub end_hour : ℕ

-- What the module reads at start-up.
pub hours_of : (start_env end_env : Option ℤ) (weekends enabled : String) → Hours
unfolding env_int env_bool
hours_of start_env end_env weekends enabled = record {
  enabled = env_bool enabled true;
  allow_weekends = env_bool weekends false;
  start_hour = env_int start_env 9;
  end_hour = env_int end_env 18;
}

-- Milliseconds since the midnight in which the current week's Sunday begins.
abbrev pub day_ms : ℕ
day_ms = 86400000

abbrev pub hour_ms : ℕ
hour_ms = 3600000

-- `getDay()` and `getHours()`.
unfoldable pub get_day : ℕ → ℕ
get_day t = t / day_ms % 7

unfoldable pub get_hours : ℕ → ℕ
get_hours t = t % day_ms / hour_ms

abbrev pub is_weekend : ℕ → Bool
is_weekend day = day == 0 || day == 6

unfoldable pub is_within_business_hours : Hours → ℕ → Bool
is_within_business_hours h local =
    if not h.enabled
    then true
    else (if not h.allow_weekends && is_weekend (get_day local)
        then false
        else leb h.start_hour (get_hours local) && ltb (get_hours local) h.end_hour)

-- The `while` loop that steps over the weekend. Two rounds are the most that it makes.
pub skip_weekend : ℕ → Hours → ℕ → ℕ
skip_weekend zero h candidate = candidate
skip_weekend (suc fuel) h candidate =
    let rest = skip_weekend fuel h (candidate + day_ms) in
    if not h.allow_weekends && is_weekend (get_day candidate) then rest else candidate

-- The start hour of today, or of tomorrow if it is past.
pub first_candidate : Hours → ℕ → ℕ
first_candidate h now =
    let today = now / day_ms * day_ms + h.start_hour * hour_ms in
    if leb today now then today + day_ms else today

-- `candidate` when the loop ends.
unfoldable pub next_business_window : Hours → ℕ → ℕ
next_business_window h now = skip_weekend 2 h (first_candidate h now)

unfoldable pub seconds_until_next_business_window : Hours → ℕ → ℕ
seconds_until_next_business_window h now = max 60 ((next_business_window h now - now) / 1000)

get_day-next : (t : ℕ) → (get_day (t + day_ms) ≡ (get_day t + 1) % 7) × (get_day t < 7)
unfolding get_day
get_day-next t = omega arith

get_hours-next : (t : ℕ) → get_hours (t + day_ms) ≡ get_hours t
unfolding get_hours
get_hours-next t = omega arith

first_candidate_lem :
    (h : Hours) (now : ℕ)
    → h.start_hour < 24
    → (now < first_candidate h now)
      × (first_candidate h now ≤ now + day_ms)
      × (get_hours (first_candidate h now) ≡ h.start_hour)
unfolding first_candidate get_hours
first_candidate_lem h now b = ground arith

-- The loop ends by its test: the fuel is enough.
skip_weekend_lem :
    (h : Hours) (c : ℕ)
    → (not h.allow_weekends && is_weekend (get_day (skip_weekend 2 h c)) ≡ false)
      × (c ≤ skip_weekend 2 h c)
      × (skip_weekend 2 h c ≤ c + 2 * day_ms)
      × (get_hours (skip_weekend 2 h c) ≡ get_hours c)
unfolding skip_weekend
skip_weekend_lem h c = ground (
  arith,
  get_day-next c,
  get_day-next (c + day_ms),
  get_hours-next c,
  get_hours-next (c + day_ms),
)

-- If the start hour is an hour of the day and before the end, the next window lies ahead, by three
-- days at most, and it is within business hours, both counted in one time zone.
pub next_business_window_lem :
    (h : Hours) (now : ℕ)
    → h.start_hour < h.end_hour
    → h.start_hour < 24
    → (now < next_business_window h now)
      × (next_business_window h now ≤ now + 3 * day_ms)
      × (is_within_business_hours h (next_business_window h now) ≡ true)
unfolding next_business_window is_within_business_hours
next_business_window_lem h now a b =
    ground (arith, first_candidate_lem h now b, skip_weekend_lem h (first_candidate h now))

-- The wait that the gate reports is a minute at least, and it ends no later than the window opens,
-- or than a minute from now.
pub seconds_until_next_business_window_lem :
    (h : Hours) (now : ℕ)
    → h.start_hour < 24
    → (60 ≤ seconds_until_next_business_window h now)
      × (seconds_until_next_business_window h now * 1000
          ≤ max 60000 (next_business_window h now - now))
      × (next_business_window h now < now + seconds_until_next_business_window h now * 1000 + 1000)
unfolding seconds_until_next_business_window
seconds_until_next_business_window_lem h now b = omega arith
