-- ===== src/Inputs/Sanitizers/Laws.antt =====
-- What is accepted.
use linkedin_hyper_v.Prelude.{ℕ, ◌≤◌, ◌≡◌, ◌↔◌, String, true, arith, truthy}
use linkedin_hyper_v.Inputs.Sanitizers.{Script, Checked, sanitize_id, validate_id}

module _ (js : Script) where
  -- An id is accepted, as its sanitized text and nothing else, exactly if that is not empty, has a
  -- length within the bounds and matches the pattern.
  pub validate_id_iff :
      (field range : String) (least most : ℕ) (value id : String)
      → (validate_id js field range least most value ≡ Checked.accepted id) ↔ (
          (id ≡ sanitize_id js value)
          × (truthy id ≡ true)
          × (least ≤ js.size id)
          × (js.size id ≤ most)
          × (js.is_id id ≡ true))
  unfolding validate_id
  validate_id_iff field range least most value id = ground arith
