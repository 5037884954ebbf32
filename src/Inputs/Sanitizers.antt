-- ===== src/Inputs/Sanitizers.antt =====
-- worker/src/sanitizers.js. Unicode normalization, `trim`, the regular expressions, the cut to a
-- length, the URL parser and `Number.parseInt` are arguments.
pub mod Laws
use Prim.Native.String
use linkedin_hyper_v.Prelude.{
  ℕ, ◌<◌, String, Bool, true, false, ◌&&◌, ◌||◌, not, Option, none, some, List, [], ◌∷◌, ltb, ◌==◌,
  if◌then◌else◌, truthy, str_eq, includes, template,
}

pub record Url : Type 0 where
  pub protocol : String
  pub hostname : String
  pub pathname : String
  pub text : String

-- `normalize` is NFKC, `unix_lines` and `strip_controls` are the two replacements of `sanitizeText`,
-- `cut n` is `slice(0, n)`, `collapse` the replacement of white space, `is_id` and `is_linkedin_host`
-- the two patterns, `size` the length, `parse_int` answers `none` for NaN and for a number below 1.
pub record Script : Type 0 where
  pub normalize : String → String
  pub unix_lines : String → String
  pub strip_controls : String → String
  pub trim : String → String
  pub cut : ℕ → String → String
  pub collapse : String → String
  pub size : String → ℕ
  pub is_id : String → Bool
  pub is_linkedin_host : String → Bool
  pub parse_url : String → Option Url
  pub parse_int : String → Option ℕ

-- An error's message, or a value.
pub data Checked : Type 0 where
  refused : String → Checked
  accepted : String → Checked

module _ (js : Script) where
  unfoldable pub sanitize_text : (max_length : ℕ) → String → String
  sanitize_text max_length value =
      js.cut max_length (js.trim (js.strip_controls (js.unix_lines (js.normalize value))))

  unfoldable pub sanitize_note : String → String
  sanitize_note value = js.trim (js.collapse (sanitize_text 300 value))

  unfoldable pub sanitize_id : String → String
  sanitize_id value = js.trim (js.normalize value)

  -- `range` is the text of the two bounds.
  unfoldable pub validate_id : (field range : String) (least most : ℕ) → String → Checked
  validate_id field range least most value =
      let sanitized = sanitize_id value in
      if truthy sanitized
      then (if ltb (js.size sanitized) least || ltb most (js.size sanitized)
          then refused (template (field ∷ " must be " ∷ range ∷ " characters" ∷ []))
          else (if js.is_id sanitized
              then accepted sanitized
              else refused (template (field ∷ " contains invalid characters" ∷ []))))
      else refused (template (field ∷ " is required" ∷ []))

  abbrev pub check_profile : Option Url → Checked
  check_profile none = refused "profileUrl must be a valid URL"
  check_profile (some parsed) =
      if includes ("http:" ∷ "https:" ∷ []) parsed.protocol
      then (if js.is_linkedin_host parsed.hostname
          then (if not (truthy parsed.pathname) || str_eq parsed.pathname "/"
              then refused "profileUrl must include a LinkedIn profile path"
              else accepted parsed.text)
          else refused "profileUrl must point to linkedin.com")
      else refused "profileUrl must use http or https"

  unfoldable pub validate_profile_url : String → Checked
  validate_profile_url value =
      let profile_url = sanitize_id value in
      if truthy profile_url
      then check_profile (js.parse_url profile_url)
      else refused "profileUrl is required"

  abbrev number_or : Option ℕ → ℕ → ℕ
  number_or none fallback = fallback
  number_or (some n) fallback = if n == 0 then fallback else n

  -- `text` is the text of the value, or of the fallback where none is given.
  unfoldable pub parse_limit : (text : String) (fallback : ℕ) → ℕ
  parse_limit text fallback = number_or (js.parse_int text) fallback
