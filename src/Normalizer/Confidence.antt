-- ===== src/Normalizer/Confidence.antt =====
-- How far a message's sender, time and identity are trusted, in hundredths. The numbers of the code
-- are multiples of 0.05, and its threshold 0.7 lies strictly between the sums that can occur, so that
-- rounding plays no part.
use linkedin_hyper_v.Prelude.{
  ℕ, ◌+◌, ◌≤◌, ◌≡◌, ◌⊎◌, refl, inl, inr, min, leb, ltb, String, Bool, true, false, ◌&&◌, ◌||◌, not,
  arith, if◌then◌else◌, truthy, str_eq, Bool-cases,
}

unfoldable pub is_known : String → Bool
is_known sender_name = truthy sender_name && not (str_eq sender_name "Unknown")

unfoldable pub compute_sender_confidence :
    (sender_id sender_name : String) (is_sent_by_me : Bool) (profile_url : String) → ℕ
compute_sender_confidence sender_id sender_name is_sent_by_me profile_url =
    if is_sent_by_me
    then 100
    else (if truthy sender_id && (not (str_eq sender_id "other") && is_known sender_name)
        then 95
        else (if truthy profile_url && is_known sender_name
            then 80
            else (if is_known sender_name then 45 else 0)))

abbrev points : Bool → ℕ
points b = if b then 20 else 0

unfoldable pub compute_identity_confidence :
    (durable : Bool) (sender_confidence timestamp_confidence : ℕ) (text profile_url : String) → ℕ
compute_identity_confidence durable sender_confidence timestamp_confidence text profile_url =
    if durable
    then 100
    else min 95 (
        points (truthy text)
        + points (truthy profile_url)
        + min sender_confidence 40
        + min timestamp_confidence 20)

-- `visible`, or `pending_repair`.
unfoldable pub is_visible : (identity_confidence sender_confidence : ℕ) → Bool
is_visible identity_confidence sender_confidence =
    leb 70 identity_confidence && leb 45 sender_confidence

-- A sender counts as identified if it is the account or has a name.
sender_confidence-identified :
    (sender_id sender_name : String) (is_sent_by_me : Bool) (profile_url : String)
    → leb 45 (compute_sender_confidence sender_id sender_name is_sent_by_me profile_url)
      ≡ (is_sent_by_me || is_known sender_name)
unfolding compute_sender_confidence
sender_confidence-identified sender_id sender_name is_sent_by_me profile_url = ground arith

abbrev pub two_of : Bool → Bool → Bool → Bool
two_of a b c = (a && b) || ((a && c) || (b && c))

-- Whether the sum reaches the threshold, by its three bonuses.
identity-threshold :
    (a b : Bool) (sender timestamp : ℕ)
    → (timestamp ≡ 0) ⊎ (20 ≤ timestamp)
    → 45 ≤ sender
    → leb 70 (min 95 (points a + points b + min sender 40 + min timestamp 20))
      ≡ two_of a b (ltb 0 timestamp)
identity-threshold true true sender timestamp t s = ground arith
identity-threshold true false sender timestamp t s = ground arith
identity-threshold false true sender timestamp t s = ground arith
identity-threshold false false sender timestamp t s = ground arith

-- A message is visible exactly if its sender is identified and it has a durable id or two of: a text,
-- the sender's profile, a time that was read.
pub is_visible_eq :
    (durable : Bool) (sender_id sender_name : String) (is_sent_by_me : Bool)
    (profile_url text : String) (timestamp : ℕ)
    → (timestamp ≡ 0) ⊎ (20 ≤ timestamp)
    → let sender = compute_sender_confidence sender_id sender_name is_sent_by_me profile_url in
      is_visible (compute_identity_confidence durable sender timestamp text profile_url) sender ≡ (
        (is_sent_by_me || is_known sender_name)
        && (durable || two_of (truthy text) (truthy profile_url) (ltb 0 timestamp)))
unfolding is_visible compute_identity_confidence
is_visible_eq durable sender_id sender_name is_sent_by_me profile_url text timestamp t =
    let sender = compute_sender_confidence sender_id sender_name is_sent_by_me profile_url in
    rw (← sender_confidence-identified sender_id sender_name is_sent_by_me profile_url)
      (visible durable sender)
  where
    and_true : (b : Bool) → (b && true) ≡ b
    and_true true = refl
    and_true false = refl

    and_false : (b : Bool) → (b && false) ≡ false
    and_false true = refl
    and_false false = refl

    visible :
        (durable : Bool) (sender : ℕ)
        → (leb 70 (
              if durable
              then 100
              else min 95 (
                  points (truthy text)
                  + points (truthy profile_url)
                  + min sender 40
                  + min timestamp 20))
            && leb 45 sender)
          ≡ (leb 45 sender
              && (durable || two_of (truthy text) (truthy profile_url) (ltb 0 timestamp)))
    visible true sender = ground arith
    visible false sender = elim (Bool-cases (leb 45 sender)) [
      | inl identified ↦
          rw
            (
              identified,
              identity-threshold (truthy text) (truthy profile_url) sender timestamp t
                  (ground arith),
            )
            (and_true (two_of (truthy text) (truthy profile_url) (ltb 0 timestamp)))
      | inr stranger ↦ rw stranger (and_false _)
    ]
