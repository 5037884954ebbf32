-- ===== src/Harvest/Scheduler/Choice.antt =====
-- The task that is chosen.
use linkedin_hyper_v.Prelude.{
  ℕ, ◌+◌, ◌-◌, ◌*◌, ◌≤◌, ◌≡◌, ◌⊎◌, refl, inl, inr, min, String, Bool, true, false, ◌&&◌, not,
  Option, none, some, List, [], ◌∷◌, ◌++◌, arith, if◌then◌else◌, Every, truthy, str_eq, ltb,
  map_get, Bool-cases,
}
use linkedin_hyper_v.Harvest.State.{Script, Progress, priorities, is_eligible_now}
use linkedin_hyper_v.Harvest.Scheduler.{
  Task, World, age_bonus, age_of, task_of, is_candidate, tasks_of, candidates, place, by_weight,
  priority_of, pick_next_task, first_of_tasks,
}

module _ (js : Script) (w : World) where
  -- A state of an account is run if the account is known and open, the state is eligible, and the gate
  -- passes for its surface, which it knows by another name for messages and conversations.
  abbrev pub runs : String → Progress → Bool
  runs account st =
      (truthy account && not (str_eq account "connect"))
      && (w.within_business_hours account
          && (is_eligible_now js st w.now
              && w.gate_allows account (
                  if str_eq st.surface "messages"
                  then "thread"
                  else (if str_eq st.surface "conversations" then "inbox" else st.surface))))

  abbrev priority : String → ℕ
  priority surface =
      if str_eq "conversations" surface
      then 100
      else (if str_eq "messages" surface
          then 80
          else (if str_eq "invitations" surface
              then 60
              else (if str_eq "notifications" surface
                  then 55
                  else (if str_eq "connections" surface
                      then 30
                      else (if str_eq "profiles" surface
                          then 20
                          else (if str_eq "posts" surface then 10 else 1))))))

  -- The weight of a state: its surface's priority in hours, and its age up to 50 hours; a state that
  -- never succeeded has all of them.
  abbrev since : Option ℕ → ℕ
  since none = 0
  since (some t) = min 180000000 (w.now - t)

  abbrev pub weight_of : Progress → ℕ
  weight_of st =
      priority st.surface * 3600000
      + (if truthy st.last_success_at then since (js.time_of st.last_success_at) else 180000000)

  -- The task is one of the list of states of the account, which is run, with its weight.
  abbrev pub IsTaskOf : Task → String → List Progress → Type 0
  IsTaskOf t account [] = ⊥
  IsTaskOf t account (st ∷ rest) =
      ((runs account st ≡ true)
        × (t.account_id ≡ account)
        × (t.surface ≡ st.surface)
        × (t.state ≡ st)
        × (t.weight ≡ weight_of st))
      ⊎ IsTaskOf t account rest

  abbrev pub IsTask : Task → List (String × List Progress) → Type 0
  IsTask t [] = ⊥
  IsTask t (a ∷ rest) = IsTaskOf t a.0 a.1 ⊎ IsTask t rest

  age_of_lem : (o : Option ℕ) → age_of js w o ≡ since o
  age_of_lem none = refl
  age_of_lem (some t) = refl

  priority_lem : (surface : String) → priority_of (map_get priorities surface) ≡ priority surface
  unfolding map_get
  priority_lem surface = ground arith

  weight-task_of :
      (account : String) (st : Progress) → (task_of js w account st).weight ≡ weight_of st
  unfolding task_of age_bonus
  weight-task_of account st =
      rw (priority_lem st.surface, age_of_lem (js.time_of st.last_success_at)) refl

  abbrev known : String → Bool
  known account = truthy account && not (str_eq account "connect")

  runs_lem :
      (account : String) (st : Progress)
      → runs account st ≡ (known account && is_candidate js w account st)
  unfolding is_candidate
  runs_lem account st = refl

  task_of-IsTaskOf :
      (account : String) (st : Progress) (rest : List Progress)
      → known account ≡ true
      → is_candidate js w account st ≡ true
      → IsTaskOf (task_of js w account st) account (st ∷ rest)
  unfolding task_of
  task_of-IsTaskOf account st rest k c =
      inl (ground (arith, runs_lem account st), refl, refl, refl, weight-task_of account st)

  Every-map :
      (P Q : Task → Type 0) (xs : List Task) → ((t : Task) → P t → Q t) → Every P xs → Every Q xs
  Every-map P Q [] f h = tt
  Every-map P Q (x ∷ xs) f h = (f x h.0, Every-map P Q xs f h.1)

  Every-append :
      (P : Task → Type 0) (xs ys : List Task) → Every P xs → Every P ys → Every P (xs ++ ys)
  Every-append P [] ys h k = k
  Every-append P (x ∷ xs) ys h k = (h.0, Every-append P xs ys h.1 k)

  Every-parts :
      (P : Task → Type 0) (xs ys : List Task) → Every P (xs ++ ys) → Every P xs × Every P ys
  Every-parts P [] ys h = (tt, h)
  Every-parts P (x ∷ xs) ys h = let (left, right) = Every-parts P xs ys h.1 in ((h.0, left), right)

  tasks_of-IsTaskOf :
      (account : String) (sts : List Progress)
      → known account ≡ true
      → Every (λ t. IsTaskOf t account sts) (tasks_of js w account sts)
  unfolding tasks_of
  tasks_of-IsTaskOf account [] k = tt
  tasks_of-IsTaskOf account (st ∷ rest) k =
      let later =
        Every-map _ (λ t. IsTaskOf t account (st ∷ rest)) (tasks_of js w account rest)
          (λ t h. inr h) (tasks_of-IsTaskOf account rest k) in
      elim (Bool-cases (is_candidate js w account st)) [
        | inl c ↦ rw c (task_of-IsTaskOf account st rest k c, later)
        | inr waits ↦ rw waits later
      ]

  candidates-IsTask :
      (accounts : List (String × List Progress))
      → Every (λ t. IsTask t accounts) (candidates js w accounts)
  unfolding candidates
  candidates-IsTask [] = tt
  candidates-IsTask (a ∷ rest) =
      let later =
        Every-map _ (λ t. IsTask t (a ∷ rest)) (candidates js w rest) (λ t h. inr h)
          (candidates-IsTask rest) in
      elim (Bool-cases (known a.0)) [
        | inl k ↦ rw k (
            Every-append _ (tasks_of js w a.0 a.1) (candidates js w rest)
              (Every-map _ (λ t. IsTask t (a ∷ rest)) (tasks_of js w a.0 a.1) (λ t h. inl h)
                (tasks_of-IsTaskOf a.0 a.1 k))
              later)
        | inr skipped ↦ rw skipped later
      ]

  -- What holds of the states that are not run, and of those whose tasks are candidates, holds of all.
  module _ (Q : Task → Type 0) (R : String → Progress → Type 0)
      (idle : (a : String) (st : Progress) → runs a st ≡ false → R a st)
      (ran : (a : String) (st : Progress) → Q (task_of js w a st) → R a st) where
    tasks_of-all :
        (account : String) (sts : List Progress)
        → Every Q (tasks_of js w account sts)
        → Every (R account) sts
    unfolding tasks_of
    tasks_of-all account [] h = tt
    tasks_of-all account (st ∷ rest) h = elim (Bool-cases (is_candidate js w account st)) [
      | inl c ↦ let (q, qs) = rw c at h in (ran account st q, tasks_of-all account rest qs)
      | inr waits ↦ (
        idle account st (ground (arith, runs_lem account st)),
        tasks_of-all account rest (rw waits at h),
      )
    ]

    skipped-all :
        (account : String) (sts : List Progress) → known account ≡ false → Every (R account) sts
    skipped-all account [] k = tt
    skipped-all account (st ∷ rest) k =
        (idle account st (ground (arith, runs_lem account st)), skipped-all account rest k)

    candidates-all :
        (accounts : List (String × List Progress))
        → Every Q (candidates js w accounts)
        → Every (λ a. Every (R a.0) a.1) accounts
    unfolding candidates
    candidates-all [] h = tt
    candidates-all (a ∷ rest) h = elim (Bool-cases (known a.0)) [
      | inl k ↦
          let (own, later) =
            Every-parts Q (tasks_of js w a.0 a.1) (candidates js w rest) (rw k at h) in
          (tasks_of-all a.0 a.1 own, candidates-all rest later)
      | inr k ↦ (skipped-all a.0 a.1 k, candidates-all rest (rw k at h))
    ]

  -- No task of the list weighs more.
  abbrev IsHeaviest : Task → List Task → Type 0
  IsHeaviest t xs = Every (λ u. u.weight ≤ t.weight) xs

  -- The head of a sorted list, after a task is placed, is the task or the old head, and the
  -- heaviest of all.
  abbrev Heads : (Task → Type 0) → List Task → List Task → Type 0
  Heads P [] xs = xs ≡ []
  Heads P (t ∷ rest) xs = P t × IsHeaviest t xs

  IsHeaviest-le :
      (t u : Task) (xs : List Task) → t.weight ≤ u.weight → IsHeaviest t xs → IsHeaviest u xs
  IsHeaviest-le t u [] h k = tt
  IsHeaviest-le t u (x ∷ xs) h k = (omega arith, IsHeaviest-le t u xs h k.1)

  place-Heads :
      (P : Task → Type 0) (t : Task) (sorted xs : List Task)
      → P t
      → Heads P sorted xs
      → Heads P (place js w t sorted) (t ∷ xs)
  unfolding place
  place-Heads P t [] xs m h = (m, (omega arith, rw h tt))
  place-Heads P t (u ∷ rest) xs m h = elim (Bool-cases (ltb t.weight u.weight)) [
    | inl less ↦ rw less (h.0, (ground arith, h.1))
    | inr more ↦ rw more (m, (omega arith, IsHeaviest-le u t xs (ground arith) h.1))
  ]

  by_weight-Heads :
      (P : Task → Type 0) (xs : List Task) → Every P xs → Heads P (by_weight js w xs) xs
  unfolding by_weight
  by_weight-Heads P [] h = refl
  by_weight-Heads P (t ∷ rest) h =
      place-Heads P t (by_weight js w rest) rest h.0 (by_weight-Heads P rest h.1)

  -- A state that is not run, or weighs no more than this.
  abbrev pub IsOutweighed : (weight : ℕ) → String → Progress → Type 0
  IsOutweighed weight account st = (runs account st ≡ false) ⊎ (weight_of st ≤ weight)

  -- Nothing is chosen, and no state of an account is run; or a task of a state that is, and no state that
  -- is run weighs more.
  abbrev pub Chosen : Option Task → List (String × List Progress) → Type 0
  Chosen none accounts = Every (λ a. Every (λ st. runs a.0 st ≡ false) a.1) accounts
  Chosen (some t) accounts =
      IsTask t accounts × Every (λ a. Every (IsOutweighed t.weight a.0) a.1) accounts

  -- The chosen task is that of a state of a known account that is open, with the state eligible and its
  -- gate passing, and no other such state weighs more, by the priority of its surface and its age;
  -- nothing is chosen exactly if there is no such state.
  pub pick_next_task-Chosen :
      (accounts : List (String × List Progress)) → Chosen (pick_next_task js w accounts) accounts
  unfolding pick_next_task
  pick_next_task-Chosen accounts = chosen (by_weight js w (candidates js w accounts)) (
      by_weight-Heads (λ t. IsTask t accounts) (candidates js w accounts)
        (candidates-IsTask accounts))
    where
      no_task : (xs : List Task) → xs ≡ [] → Every (λ t. ⊥) xs
      no_task [] e = tt
      no_task (x ∷ xs) e = cc

      chosen :
          (sorted : List Task)
          → Heads (λ t. IsTask t accounts) sorted (candidates js w accounts)
          → Chosen (first_of_tasks sorted) accounts
      chosen [] h =
          candidates-all (λ t. ⊥) (λ a st. runs a st ≡ false) (λ a st idle. idle)
            (λ a st e. absurd e) accounts (no_task (candidates js w accounts) h)
      chosen (t ∷ rest) (task, heaviest) = (
        task,
        candidates-all (λ u. u.weight ≤ t.weight) (IsOutweighed t.weight) (λ a st idle. inl idle)
            (λ a st le. inr (rw (weight-task_of a st) at le)) accounts heaviest,
      )
