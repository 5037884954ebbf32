-- ===== src/RateLimit/Counts.antt =====
-- The counters of a rate-limit store, wherever they live: in Redis while it answers, else in the
-- process's memory.
use Prim.Native.String
use text.Mathlib.TextLemmas.{append_cancel_left}
use linkedin_hyper_v.Prelude.{
  ℕ, suc, ◌+◌, ◌≤◌, ◌≡◌, ◌≢◌, sym, String, false, arith, if◌then◌else◌, str_eq, eq_iff, map_get,
  map_get-map_set, Bool-cases, inl, inr,
}
use linkedin_hyper_v.Redis.{
  Redis, CounterLaws, or_zero, incr_script_reply, count-incr_script, up-incr_script,
}
use linkedin_hyper_v.RateLimit.{Now, Store, incr_atomically, read_count, daily_key, hourly_key}

module _ (r : Redis) (laws : CounterLaws r) where
  -- The count that a key stands at.
  unfoldable pub count_of : Store r → String → ℕ
  count_of w k =
      if r.up w.server then laws.count w.server k else or_zero (map_get w.memory_counters k)

  pub incr_atomically_reply :
      (k : String) (t : ℕ) (now : Now) (w : Store r)
      → (incr_atomically r k t now w).0 ≡ count_of w k + 1
  unfolding incr_atomically count_of
  incr_atomically_reply k t now w = ground (arith, incr_script_reply r laws k t w.server)

  pub count_of-incr_atomically :
      (k j : String) (t : ℕ) (now : Now) (w : Store r)
      → count_of (incr_atomically r k t now w).1 j
        ≡ (if str_eq k j then count_of w k + 1 else count_of w j)
  unfolding incr_atomically count_of
  count_of-incr_atomically k j t now w = ground (
    arith,
    count-incr_script r laws k j t w.server,
    up-incr_script r laws k t w.server,
    map_get-map_set w.memory_counters k j (or_zero (map_get w.memory_counters k) + 1),
  )

  -- No counter falls, the counter of the key moves by one, and another key's stays.
  pub count_of-le :
      (k j : String) (t : ℕ) (now : Now) (w : Store r)
      → count_of w j ≤ count_of (incr_atomically r k t now w).1 j
  count_of-le k j t now w = ground (arith, count_of-incr_atomically k j t now w, eq_iff k j)

  pub count_of_self :
      (k : String) (t : ℕ) (now : Now) (w : Store r)
      → count_of (incr_atomically r k t now w).1 k ≡ suc (count_of w k)
  count_of_self k t now w = ground (arith, count_of-incr_atomically k k t now w, eq_iff k k)

  pub count_of_other :
      (k j : String) (t : ℕ) (now : Now) (w : Store r)
      → str_eq k j ≡ false
      → count_of (incr_atomically r k t now w).1 j ≡ count_of w j
  count_of_other k j t now w h = ground (arith, count_of-incr_atomically k j t now w)

  pub read_count_lem : (k : String) (w : Store r) → read_count r k w ≡ count_of w k
  unfolding read_count count_of
  read_count_lem k w = ground (arith, laws.count-get k w.server)

-- A day's text is no hour's text behind "h:", as it begins with a digit.
abbrev pub IsClock : Now → Type 0
IsClock now = now.today ≢ String.◌++◌ "h:" now.hour

-- So the two keys of an action differ.
pub hourly_key-ne-daily_key :
    (account action : String) (now : Now)
    → IsClock now
    → str_eq (hourly_key account action now) (daily_key account action now) ≡ false
unfolding hourly_key daily_key
hourly_key-ne-daily_key account action now h = elim (Bool-cases (str_eq _ _)) [
  | inl same ↦ absurd (
      h (
        sym (
          append_cancel_left _ _ _ (
            append_cancel_left _ _ _ (
              append_cancel_left _ _ _
                (append_cancel_left _ _ _ (append_cancel_left _ _ _ ((eq_iff _ _).0 same))))))))
  | inr differ ↦ differ
]
