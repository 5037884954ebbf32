-- ===== src/Normalizer/Dates/Labels.antt =====
-- What a weekday's label comes to.
use linkedin_hyper_v.Prelude.{
  ℕ, ◌+◌, ◌-◌, ◌*◌, ◌/◌, ◌%◌, ◌≤◌, ◌<◌, ◌≡◌, inl, inr, some, arith, ltb, ltb→lt, ap, ◌∙◌,
  Bool-cases, if◌then◌else◌,
}
use linkedin_hyper_v.Normalizer.Dates.{
  ClockTime, day_ms, weekday, apply_time, last_weekday, at_time,
}

noon_before : (d back : ℕ) → back ≤ d → (d * day_ms + 43200000 - back * day_ms) / day_ms ≡ d - back
noon_before d back h = omega arith

weekday_back :
    (d index : ℕ) → index < 7 → 7 ≤ d → (d - ((d + 4) % 7 + 7 - index) % 7 + 4) % 7 ≡ index
weekday_back d index i h = omega arith

back_lt : (d index : ℕ) → ((d + 4) % 7 + 7 - index) % 7 < 7
back_lt d index = omega arith

-- The day of the label's noon.
last_weekday_day :
    (now index : ℕ)
    → 7 * day_ms ≤ now
    → last_weekday now index / day_ms ≡ now / day_ms - ((now / day_ms + 4) % 7 + 7 - index) % 7
unfolding weekday last_weekday
last_weekday_day now index w =
    noon_before (now / day_ms) (((now / day_ms + 4) % 7 + 7 - index) % 7)
      (omega (arith, back_lt (now / day_ms) index))

-- Noon of a day with the label's weekday, today or one of the six days before.
last_weekday_lem :
    (now index : ℕ)
    → index < 7
    → 7 * day_ms ≤ now
    → (weekday (last_weekday now index) ≡ index)
      × (now / day_ms ≤ last_weekday now index / day_ms + 6)
      × (last_weekday now index / day_ms ≤ now / day_ms)
unfolding weekday
last_weekday_lem now index i w = (
  rw (last_weekday_day now index w) (weekday_back (now / day_ms) index i (omega arith)),
  omega (arith, last_weekday_day now index w, back_lt (now / day_ms) index),
  omega (arith, last_weekday_day now index w, back_lt (now / day_ms) index),
)

at_time_day :
    (c : ClockTime) (date : ℕ)
    → c.hours < 24
    → c.minutes < 60
    → at_time c date / day_ms ≡ date / day_ms
at_time_day c date h m = omega arith

day_before : (d ms : ℕ) → 1 ≤ d → ms < day_ms → (d * day_ms + ms - day_ms) / day_ms ≡ d - 1
day_before d ms h l = omega arith

same_day : (d ms : ℕ) → ms < day_ms → (d * day_ms + ms) / day_ms ≡ d
same_day d ms l = omega arith

weekday_before : (d index : ℕ) → 1 ≤ d → (d + 4) % 7 ≡ index → (d - 1 + 4) % 7 ≡ (index + 6) % 7
weekday_before d index h e = omega arith

-- The time of a weekday's label, with a time of day, lies at most 5 minutes ahead and less than 8
-- days back. Its weekday is the label's, unless the label is today's and the time is still ahead:
-- then it is the day before the label's.
pub apply_time-last_weekday :
    (now index : ℕ) (c : ClockTime)
    → index < 7
    → 8 * day_ms ≤ now
    → c.hours < 24
    → c.minutes < 60
    → let t = apply_time now (some c) (last_weekday now index) in
      (t ≤ now + 300000)
      × (now < t + 8 * day_ms)
      × (weekday t ≡ (
          if ltb (now + 300000) (at_time c (last_weekday now index))
          then (index + 6) % 7
          else index))
unfolding apply_time weekday
apply_time-last_weekday now index c i w h m =
    let d = last_weekday now index / day_ms in
    let ms = c.hours * 3600000 + c.minutes * 60000 in
    let (on, early, late) = last_weekday_lem now index i (omega arith) in
    elim (Bool-cases (ltb (now + 300000) (at_time c (last_weekday now index)))) [
      | inl ahead ↦ rw ahead (
        omega arith,
        omega (arith, ltb→lt _ _ ahead),
        ap (λ (d : ℕ). (d + 4) % 7) (day_before d ms (omega arith) (omega arith))
            ∙ weekday_before d index (omega arith) on,
      )
      | inr past ↦ rw past (
        ground arith,
        omega arith,
        ap (λ (d : ℕ). (d + 4) % 7) (same_day d ms (omega arith)) ∙ on,
      )
    ]
