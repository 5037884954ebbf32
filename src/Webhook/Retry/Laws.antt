-- ===== src/Webhook/Retry/Laws.antt =====
-- The life of a webhook event under the retry service.
use linkedin_hyper_v.Prelude.{
  ℕ, zero, suc, ◌+◌, ◌-◌, ◌≤◌, ◌<◌, ◌≡◌, ◌⊎◌, refl, inl, inr, String, Bool, true, ◌&&◌, Option,
  none, some, List, [], ◌∷◌, arith, leb, if◌then◌else◌, truthy, TextMap, map_get, Bool-cases,
  Option-cases,
}
use linkedin_hyper_v.Webhook.Guard.{assert_safe_webhook_target}
use linkedin_hyper_v.Webhook.Retry.{
  Event, Update, Post, Outside, max_attempts, next_backoff_minutes, after_answer, retry_event,
  is_retryable, update_webhook_event,
}

next_backoff_minutes_lem :
    (n : ℕ)
    → next_backoff_minutes n
      ≡ (if leb n 1 then 5 else (if leb n 2 then 15 else (if leb n 3 then 60 else 360)))
unfolding next_backoff_minutes
next_backoff_minutes_lem zero = refl
next_backoff_minutes_lem (suc zero) = refl
next_backoff_minutes_lem (suc (suc zero)) = refl
next_backoff_minutes_lem (suc (suc (suc zero))) = refl
next_backoff_minutes_lem (suc (suc (suc (suc zero)))) = refl
next_backoff_minutes_lem (suc (suc (suc (suc (suc n))))) = ground arith

pub next_backoff_minutes_mono : (m n : ℕ) → m ≤ n → next_backoff_minutes m ≤ next_backoff_minutes n
next_backoff_minutes_mono m n h =
    ground (arith, next_backoff_minutes_lem m, next_backoff_minutes_lem n)

-- What an update leaves: an end, or a next attempt that is still allowed and lies 5 minutes to 6
-- hours ahead.
abbrev pub IsSettled : (now : ℕ) → Event → Type 0
IsSettled now event =
    ((event.status ≡ "delivered") × (event.next_attempt_at ≡ none))
    ⊎ ((event.status ≡ "failed") × (event.next_attempt_at ≡ none))
    ⊎ ((event.status ≡ "retry_pending")
        × (event.attempts < max_attempts)
        × ((t : ℕ) × (event.next_attempt_at ≡ some t) × (now + 300000 ≤ t) × (t ≤ now + 21600000)))

module _ (o : Outside) where
  -- What is sent for an event: its payload to its target, signed with the secret over the payload.
  abbrev signed_payload : (secret : String) → Event → Post
  signed_payload secret event = record {
    url = event.target_url;
    event_type = event.event_type;
    signature = o.hmac secret event.payload;
    body = event.payload;
  }

  -- An event is failed for good without a POST, or it is sent: then its target has a secret and passes
  -- the guard, and the POST has the event's URL, type and payload, and the HMAC of the payload.
  abbrev pub IsSafelySent : TextMap String → ℕ → Event → Option Post × Update → Type 0
  IsSafelySent secrets now event (sent, update) =
      ((sent ≡ none)
        × (update.status ≡ "failed")
        × (update.next_attempt_at ≡ none)
        × (event.attempts ≤ (update_webhook_event event update).attempts))
      ⊎ ((secret : String) × (map_get secrets event.target_url ≡ some secret)
          × (truthy secret ≡ true)
          × (assert_safe_webhook_target o.net event.target_url ≡ none)
          × (sent ≡ some (signed_payload secret event))
          × (update
              ≡ after_answer o (event.attempts + 1) now (o.hmac secret event.payload)
                  (o.answer (signed_payload secret event))))

  -- A retried event is failed for good without a POST, or its target has a secret and passes the guard,
  -- and one POST is sent, to that target, of the event's type and payload, signed with the HMAC of the
  -- payload under that secret; the update is the one for its answer.
  pub retry_event-IsSafelySent :
      (secrets : TextMap String) (now : ℕ) (event : Event)
      → IsSafelySent secrets now event (retry_event o secrets now event)
  unfolding retry_event update_webhook_event
  retry_event-IsSafelySent secrets now event =
      elim (Option-cases (map_get secrets event.target_url)) [
        | inl missing ↦ rw missing (inl (refl, refl, refl, omega arith))
        | inr (secret, found) ↦ elim (Bool-cases (truthy secret)) [
          | inl present ↦ elim (Option-cases (assert_safe_webhook_target o.net event.target_url)) [
            | inl safe ↦ rw (found, present, safe) (inr (secret, refl, present, refl, refl, refl))
            | inr (message, unsafe) ↦
                rw (found, present, unsafe) (inl (refl, refl, refl, omega arith))
          ]
          | inr empty ↦ rw (found, empty) (inl (refl, refl, refl, omega arith))
        ]
      ]

-- One poll of a row: what its surroundings answer, the secrets then, the time, and whether the
-- database takes the update of the row; if it does not, the error is swallowed and the row stays.
pub record Poll : Type 0 where
  pub outside : Outside
  pub secrets : TextMap String
  pub now : ℕ
  pub is_stored : Bool

unfoldable pub poll_once : Poll → Event → Event
poll_once p event =
    if is_retryable p.now event && p.is_stored
    then update_webhook_event event (retry_event p.outside p.secrets p.now event).1
    else event

abbrev one_if : Option Post → ℕ
one_if none = 0
one_if (some post) = 1

unfoldable pub posts_once : Poll → Event → ℕ
posts_once p event =
    if is_retryable p.now event then one_if (retry_event p.outside p.secrets p.now event).0 else 0

-- The POSTs of a row over a run of polls.
unfoldable pub posts : List Poll → Event → ℕ
posts [] event = 0
posts (poll ∷ rest) event = posts_once poll event + posts rest (poll_once poll event)

-- The polls whose update is lost.
unfoldable pub lost : List Poll → ℕ
lost [] = 0
lost (poll ∷ rest) = if poll.is_stored then lost rest else suc (lost rest)

left_after :
    (sent before after : ℕ)
    → before + sent ≤ after
    → sent ≤ 1
    → before < max_attempts
    → sent + (max_attempts - after) ≤ max_attempts - before
left_after sent before after kept once more = omega arith

abbrev lost_once : Poll → ℕ
lost_once p = if p.is_stored then 0 else 1
