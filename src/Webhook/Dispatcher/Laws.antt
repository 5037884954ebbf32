-- ===== src/Webhook/Dispatcher/Laws.antt =====
-- What a delivery comes to.
use linkedin_hyper_v.Prelude.{
  ℕ, zero, suc, ◌+◌, ◌≤◌, ◌<◌, ◌≡◌, ◌≢◌, ◌↔◌, ◌∙◌, refl, inl, inr, String, truthy, template, Bool,
  true, false, Option, none, some, List, [], ◌∷◌, arith, leb, if◌then◌else◌, Bool-cases,
  Option-cases, Every,
}
use linkedin_hyper_v.Webhook.Guard.{assert_safe_webhook_target}
use linkedin_hyper_v.Webhook.Dispatcher.{
  Subscription, Event, Post, Outside, Act, act_of, attempt_acts, delay_of, post_of, sign,
  deliver_once, deliver_loop, deliver_with_retry,
}

-- The number of dead letters, and of requests.
abbrev dead_letters : List Act → ℕ
dead_letters [] = 0
dead_letters (Act.sent post ∷ rest) = dead_letters rest
dead_letters (Act.waited ms ∷ rest) = dead_letters rest
dead_letters (Act.dead_letter url event ∷ rest) = suc (dead_letters rest)

abbrev requests : List Act → ℕ
requests [] = 0
requests (Act.sent post ∷ rest) = suc (requests rest)
requests (Act.waited ms ∷ rest) = requests rest
requests (Act.dead_letter url event ∷ rest) = requests rest

-- Delivered without a dead letter, or not delivered with exactly one; and bounded requests.
abbrev pub Ends : ℕ → Bool × List Act → Type 0
Ends left (delivered, acts) =
    (dead_letters acts ≡ (if delivered then 0 else 1)) × (requests acts ≤ left)

attempt_acts-Ends :
    (left : ℕ) (post : Option Post) (ok waits : Bool) (delay : ℕ) (rest : Bool × List Act)
    → Ends left rest
    → Ends (suc left) (attempt_acts post ok waits delay rest)
attempt_acts-Ends left none true waits delay rest h = (refl, omega arith)
attempt_acts-Ends left (some post) true waits delay rest h = (refl, omega arith)
attempt_acts-Ends left none false true delay rest h = (h.0, omega arith)
attempt_acts-Ends left (some post) false true delay rest h = (h.0, omega arith)
attempt_acts-Ends left none false false delay rest h = (h.0, omega arith)
attempt_acts-Ends left (some post) false false delay rest h = (h.0, omega arith)

attempt_acts_delivered :
    (post : Option Post) (ok waits : Bool) (delay : ℕ) (rest : Bool × List Act)
    → (attempt_acts post ok waits delay rest).0 ≡ (if ok then true else rest.0)
attempt_acts_delivered post true waits delay rest = refl
attempt_acts_delivered post false true delay rest = refl
attempt_acts_delivered post false false delay rest = refl

module _ (o : Outside) (sub : Subscription) (event : Event) where
  deliver_loop-Ends : (left attempt : ℕ) → Ends left (deliver_loop o sub event left attempt)
  unfolding deliver_loop
  deliver_loop-Ends zero attempt = (refl, omega arith)
  deliver_loop-Ends (suc left) attempt =
      attempt_acts-Ends left (deliver_once o sub event attempt).0
        (deliver_once o sub event attempt).1 (leb 1 left) (delay_of attempt)
        (deliver_loop o sub event left (attempt + 1)) (deliver_loop-Ends left (attempt + 1))

  pub deliver_with_retry-Ends :
      (max_attempts : ℕ) → Ends max_attempts (deliver_with_retry o max_attempts sub event)
  unfolding deliver_with_retry
  deliver_with_retry-Ends max_attempts = deliver_loop-Ends max_attempts 0

  -- Some attempt from `attempt` on, among `left`, succeeds.
  abbrev pub Succeeds : (left attempt : ℕ) → Type 0
  Succeeds left attempt =
      (i : ℕ) × (attempt ≤ i) × (i < attempt + left) × ((deliver_once o sub event i).1 ≡ true)

  deliver_loop-true :
      (left attempt : ℕ) → (deliver_loop o sub event left attempt).0 ≡ true → Succeeds left attempt
  unfolding deliver_loop
  deliver_loop-true zero attempt h = cc
  deliver_loop-true (suc left) attempt h = elim (Bool-cases (deliver_once o sub event attempt).1) [
    | inl ok ↦ (attempt, omega arith, omega arith, ok)
    | inr fails ↦
        let (i, from, to, ok) = deliver_loop-true left (attempt + 1) (ground arith) in
        (i, omega arith, omega arith, ok)
  ]

  deliver_loop-succeeds :
      (left attempt i : ℕ)
      → attempt ≤ i
      → i < attempt + left
      → (deliver_once o sub event i).1 ≡ true
      → (deliver_loop o sub event left attempt).0 ≡ true
  unfolding deliver_loop
  deliver_loop-succeeds zero attempt i from to ok = absurd (omega arith)
  deliver_loop-succeeds (suc left) attempt i from to ok =
      elim (Bool-cases (deliver_once o sub event attempt).1) [
        | inl now ↦ delivered ∙ rw now refl
        | inr fails ↦
            delivered
            ∙ rw fails (deliver_loop-succeeds left (attempt + 1) i (later fails) (omega arith) ok)
      ]
    where
      delivered : (deliver_loop o sub event (suc left) attempt).0 ≡ (
          if (deliver_once o sub event attempt).1
          then true
          else (deliver_loop o sub event left (attempt + 1)).0)
      delivered =
          attempt_acts_delivered (deliver_once o sub event attempt).0
            (deliver_once o sub event attempt).1 (leb 1 left) (delay_of attempt)
            (deliver_loop o sub event left (attempt + 1))

      differ : (deliver_once o sub event attempt).1 ≡ false → attempt ≢ i
      differ fails e = cc

      later : (deliver_once o sub event attempt).1 ≡ false → attempt + 1 ≤ i
      later fails = omega (arith, differ fails)

  pub deliver_with_retry_iff :
      (max_attempts : ℕ)
      → ((deliver_with_retry o max_attempts sub event).0 ≡ true) ↔ Succeeds max_attempts 0
  unfolding deliver_with_retry
  deliver_with_retry_iff max_attempts = (
    (λ h. deliver_loop-true max_attempts 0 h),
    (λ h. deliver_loop-succeeds max_attempts 0 h.0 h.1 h.2 h.3),
  )

  -- The signature header of the i-th attempt: the time, and the HMAC over the time and the body.
  abbrev signature_of : (i : ℕ) → Option String
  signature_of i =
      if truthy sub.secret
      then some (
          template (
            "t="
            ∷ o.seconds i
            ∷ ",v1="
            ∷ o.hmac sub.secret (template (o.seconds i ∷ "." ∷ o.json event (i + 1) ∷ []))
            ∷ []))
      else none

  -- A request goes to the subscription's URL, which passes the guard at the time of the attempt; it
  -- carries the attempt's number, the text of the event with that number, and its signature. A dead
  -- letter is the event itself, with that URL.
  abbrev pub IsGuarded : Act → Type 0
  IsGuarded (Act.sent post) =
      (i : ℕ) × (post.url ≡ sub.url)
      × (post.delivery_attempt ≡ i + 1)
      × (post.body ≡ o.json event (i + 1))
      × (post.signature ≡ signature_of i)
      × (assert_safe_webhook_target (o.net i) sub.url ≡ none)
  IsGuarded (Act.waited ms) = Unit
  IsGuarded (Act.dead_letter url e) = (url ≡ sub.url) × (e ≡ event)

  act_of-IsGuarded : (attempt : ℕ) → Every IsGuarded (act_of (deliver_once o sub event attempt).0)
  unfolding deliver_once post_of sign
  act_of-IsGuarded attempt =
      elim (Option-cases (assert_safe_webhook_target (o.net attempt) sub.url)) [
        | inl safe ↦ rw safe ((attempt, refl, refl, refl, refl, safe), tt)
        | inr (message, unsafe) ↦ rw unsafe tt
      ]

  attempt_acts-IsGuarded :
      (post : Option Post) (ok waits : Bool) (delay : ℕ) (rest : Bool × List Act)
      → Every IsGuarded (act_of post)
      → Every IsGuarded rest.1
      → Every IsGuarded (attempt_acts post ok waits delay rest).1
  attempt_acts-IsGuarded post true waits delay rest h k = h
  attempt_acts-IsGuarded none false true delay rest h k = (tt, k)
  attempt_acts-IsGuarded (some post) false true delay rest h k = (h.0, (tt, k))
  attempt_acts-IsGuarded none false false delay rest h k = k
  attempt_acts-IsGuarded (some post) false false delay rest h k = (h.0, k)

  deliver_loop-IsGuarded :
      (left attempt : ℕ) → Every IsGuarded (deliver_loop o sub event left attempt).1
  unfolding deliver_loop
  deliver_loop-IsGuarded zero attempt = ((refl, refl), tt)
  deliver_loop-IsGuarded (suc left) attempt =
      attempt_acts-IsGuarded (deliver_once o sub event attempt).0
        (deliver_once o sub event attempt).1 (leb 1 left) (delay_of attempt)
        (deliver_loop o sub event left (attempt + 1)) (act_of-IsGuarded attempt)
        (deliver_loop-IsGuarded left (attempt + 1))

  -- Every request of a delivery goes to the URL of the subscription, which passes the guard at that
  -- attempt, with the number of the attempt, the text of the event with that number, and, if there is a
  -- secret, the HMAC of the time and that text; a dead letter carries the URL and the event.
  pub deliver_with_retry-IsGuarded :
      (max_attempts : ℕ) → Every IsGuarded (deliver_with_retry o max_attempts sub event).1
  unfolding deliver_with_retry
  deliver_with_retry-IsGuarded max_attempts = deliver_loop-IsGuarded max_attempts 0
