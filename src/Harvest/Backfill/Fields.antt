-- ===== src/Harvest/Backfill/Fields.antt =====
-- What the patches of a run leave of the progress that is read back.
use linkedin_hyper_v.Prelude.{
  ℕ, ◌+◌, ◌≡◌, refl, String, Bool, [], ◌∷◌, if◌then◌else◌, TextMap, map_get-map_set,
}
use linkedin_hyper_v.Redis.{merged}
use linkedin_hyper_v.Harvest.State.{Script, ScriptLaws, Progress, spread}
use linkedin_hyper_v.Harvest.Backfill.{
  Parts, Page, first_fields, success_fields, failure_fields, cooldown_ms, phase_after,
}

-- What a failed run keeps and counts.
abbrev pub Held : Progress → Progress → Bool → Type 0
Held st st' blocked =
    (st'.cursor ≡ st.cursor)
    × (st'.fetched ≡ st.fetched)
    × (st'.total_estimate ≡ st.total_estimate)
    × (st'.last_success_at ≡ st.last_success_at)
    × (st'.consecutive_failures ≡ st.consecutive_failures + 1)
    × (st'.phase ≡ (if blocked then "blocked" else st.phase))

-- What a successful run writes.
abbrev pub Advanced : Progress → ℕ → ℕ → String → Type 0
Advanced st' fetched total phase =
    (st'.fetched ≡ fetched)
    × (st'.total_estimate ≡ total)
    × (st'.phase ≡ phase)
    × (st'.consecutive_failures ≡ 0)

module _ (js : Script) (laws : ScriptLaws js) (v : Parts) where
  pub spread-failure :
      (raw : TextMap String) (account surface : String) (started finished : ℕ) (b : Bool)
      → Held
          (spread js raw account surface)
          (spread js
            (merged
              (merged raw (first_fields js v started (spread js raw account surface)))
              (failure_fields js v finished (spread js raw account surface) b))
            account
            surface)
          b
  unfolding spread
  spread-failure raw account surface started finished b =
      simp (map_get-map_set, laws.number-show) (refl, refl, refl, refl, refl, refl)

  pub spread-next :
      (raw : TextMap String) (st : Progress) (account surface : String) (finished : ℕ) (b : Bool)
      → (spread js
          (merged raw (failure_fields js v finished st b))
          account
          surface).next_eligible_at
        ≡ js.iso (finished + cooldown_ms js v b)
  unfolding spread
  spread-next raw st account surface finished b = simp (map_get-map_set)

  pub spread-date :
      (raw : TextMap String) (account surface : String) (t : ℕ)
      → (spread js
          (merged raw (("nextEligibleAt", js.iso t) ∷ []))
          account
          surface).next_eligible_at
        ≡ js.iso t
  unfolding spread
  spread-date raw account surface t = simp (map_get-map_set)

  pub spread-success :
      (raw : TextMap String) (account surface : String) (finished : ℕ) (res : Page)
      → Advanced
          (spread js (merged raw (success_fields js v finished res)) account surface)
          res.fetched
          res.total
          (phase_after js v res)
  unfolding spread
  spread-success raw account surface finished res =
      simp (map_get-map_set, laws.number-show) (refl, refl, refl, refl)
