-- ===== src/Normalizer/Dates.antt =====
-- Dates from what the page shows: a day's label and a time of day. Local time is counted in
-- milliseconds, in days of 24 hours, from a Thursday's midnight.
pub mod Labels
use linkedin_hyper_v.Prelude.{
  ℕ, zero, suc, ◌+◌, ◌-◌, ◌*◌, ◌/◌, ◌%◌, ◌<◌, ltb, ◌==◌, String, Bool, true, false, ◌&&◌, Option,
  none, some, List, [], ◌∷◌, if◌then◌else◌, truthy, str_eq, template,
}
use linkedin_hyper_v.Normalizer.{Script, normalize_whitespace}

abbrev pub day_ms : ℕ
day_ms = 86400000

-- The three groups of the pattern of a clock time, `none` where it does not match: hours, minutes
-- (0 where missing) and whether it is PM.
pub record Pattern : Type 0 where
  pub clock : String → Option (ℕ × (ℕ × Bool))
  -- `new Date(text)` in local time, and the same day a year before.
  pub read_local : String → Option ℕ
  pub year_before : ℕ → ℕ

pub record ClockTime : Type 0 where
  pub hours : ℕ
  pub minutes : ℕ

abbrev pub to_24 : ℕ → Bool → ℕ
to_24 hours true = if ltb hours 12 then hours + 12 else hours
to_24 hours false = if hours == 12 then 0 else hours

abbrev pub clock_of : Option (ℕ × (ℕ × Bool)) → Option ClockTime
clock_of none = none
clock_of (some (hours, (minutes, pm))) = some record { hours = to_24 hours pm; minutes = minutes }

unfoldable pub parse_clock_time : Script → Pattern → String → Option ClockTime
parse_clock_time js p value = clock_of (p.clock (js.upper (normalize_whitespace js value)))

-- `getDay()`, Sunday being 0.
unfoldable pub weekday : ℕ → ℕ
weekday t = (t / day_ms + 4) % 7

abbrev pub weekdays : List String
weekdays = "SUNDAY" ∷ "MONDAY" ∷ "TUESDAY" ∷ "WEDNESDAY" ∷ "THURSDAY" ∷ "FRIDAY" ∷ "SATURDAY" ∷ []

unfoldable pub index_of : List String → String → Option ℕ
index_of [] label = none
index_of (name ∷ rest) label =
    let later = index_of rest label in
    if str_eq name label then some 0 else elim later [ none ↦ none | some i ↦ some (i + 1) ]

-- `next.setHours(hours, minutes, 0, 0)`, and a day less if that is ahead of now by 5 minutes.
abbrev pub at_time : ClockTime → ℕ → ℕ
at_time c date = date / day_ms * day_ms + (c.hours * 3600000 + c.minutes * 60000)

unfoldable pub apply_time : (now : ℕ) → Option ClockTime → ℕ → ℕ
apply_time now none date = date
apply_time now (some c) date =
    if ltb (now + 300000) (at_time c date) then at_time c date - day_ms else at_time c date

-- Noon of the last such weekday, today's included.
unfoldable pub last_weekday : (now index : ℕ) → ℕ
last_weekday now index = now / day_ms * day_ms + 43200000 - (weekday now + 7 - index) % 7 * day_ms

abbrev pub explicit_date : Pattern → (now : ℕ) → Option ℕ → Option ℕ
explicit_date p now none = none
explicit_date p now (some t) = some (if ltb (now + day_ms) t then p.year_before t else t)

abbrev pub label_text : String → Option ClockTime → (time_text : String) → String
label_text day none time_text = day
label_text day (some c) time_text = template (day ∷ " " ∷ time_text ∷ [])

abbrev pub from_label :
    Pattern → (now : ℕ) → (day time_text : String) → Option ClockTime → Option ℕ → Option ℕ
from_label p now day time_text c (some index) = some (apply_time now c (last_weekday now index))
from_label p now day time_text c none =
    explicit_date p now (p.read_local (label_text day c time_text))

unfoldable pub infer_date_from_day_label :
    Script → Pattern → (now : ℕ) → (day_label time_text : String) → Option ℕ
infer_date_from_day_label js p now day_label time_text =
    let day = js.upper (normalize_whitespace js day_label) in
    if truthy day
    then from_label p now day time_text (parse_clock_time js p time_text) (index_of weekdays day)
    else none

pub record Resolution : Type 0 where
  pub sent_at : ℕ
  -- In hundredths.
  pub timestamp_confidence : ℕ

abbrev pub best_effort : (now : ℕ) → Option ℕ → Resolution
best_effort now none = record { sent_at = now; timestamp_confidence = 0 }
best_effort now (some t) = record { sent_at = t; timestamp_confidence = 55 }

unfoldable pub best_effort_message_date :
    Script → Pattern → (now : ℕ) → (day_label time_text : String) → Resolution
best_effort_message_date js p now day_label time_text =
    best_effort now (infer_date_from_day_label js p now day_label time_text)
