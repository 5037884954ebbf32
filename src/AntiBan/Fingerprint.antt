-- ===== src/AntiBan/Fingerprint.antt =====
-- The fingerprint of an account in worker/src/antiBan.js. The SHA-256 digest is an argument: the
-- number that its four bytes at an offset stand for.
use linkedin_hyper_v.Prelude.{
  ℕ, ◌%◌, ◌<◌, ◌≡◌, refl, ap, ◌⊎◌, inl, inr, String, Bool, true, false, Option, none, some, List,
  [], ◌∷◌, arith, length, get_elem?, truthy, or_text, if◌then◌else◌, suc, zero, In,
}

pub record Viewport : Type 0 where
  pub width : ℕ
  pub height : ℕ

pub record Zone : Type 0 where
  pub tz : String
  pub locale : String

abbrev pub ua_pool : List String
ua_pool =
    "Mozilla/5.0 (Windows NT 10.0; Win64; x64) AppleWebKit/537.36 (KHTML, like Gecko) Chrome/120.0.0.0 Safari/537.36"
    ∷ "Mozilla/5.0 (Windows NT 10.0; Win64; x64) AppleWebKit/537.36 (KHTML, like Gecko) Chrome/121.0.0.0 Safari/537.36"
    ∷ "Mozilla/5.0 (Windows NT 10.0; Win64; x64) AppleWebKit/537.36 (KHTML, like Gecko) Chrome/122.0.0.0 Safari/537.36"
    ∷ "Mozilla/5.0 (Macintosh; Intel Mac OS X 10_15_7) AppleWebKit/537.36 (KHTML, like Gecko) Chrome/121.0.0.0 Safari/537.36"
    ∷ "Mozilla/5.0 (Windows NT 10.0; Win64; x64) AppleWebKit/537.36 (KHTML, like Gecko) Chrome/121.0.0.0 Safari/537.36 Edg/121.0.0.0"
    ∷ []

abbrev pub viewport_pool : List Viewport
viewport_pool =
    record { width = 1366; height = 768 }
    ∷ record { width = 1440; height = 900 }
    ∷ record { width = 1536; height = 864 }
    ∷ record { width = 1600; height = 900 }
    ∷ record { width = 1920; height = 1080 }
    ∷ []

abbrev pub tz_pool : List Zone
tz_pool =
    record { tz = "America/New_York"; locale = "en-US" }
    ∷ record { tz = "America/Chicago"; locale = "en-US" }
    ∷ record { tz = "America/Los_Angeles"; locale = "en-US" }
    ∷ record { tz = "America/Denver"; locale = "en-US" }
    ∷ []

-- `pool[idx]`, which is undefined only for an empty pool.
unfoldable pub pick_from_pool {ℓ} : {A : Type ℓ} → List A → (ℕ → ℕ) → ℕ → Option A
pick_from_pool pool read_uint32 offset = get_elem? pool (read_uint32 (offset % 28) % length pool)

-- The caller's overrides; the empty text stands for none.
pub record Overrides : Type 0 where
  pub timezone_id : String
  pub locale : String
  pub user_agent : String
  pub viewport : Option Viewport

pub record Fingerprint : Type 0 where
  pub user_agent : Option String
  pub viewport : Option Viewport
  pub timezone_id : Option String
  pub locale : Option String
  pub device_scale_factor : ℕ
  pub has_touch : Bool
  pub is_mobile : Bool
  pub color_scheme : String

abbrev zone_of : Option Zone → Option String × Option String
zone_of none = (none, none)
zone_of (some z) = (some z.tz, some z.locale)

-- `env_tz` is `process.env['ANTIBAN_TZ_…']`, the empty text if it is unset.
unfoldable pub fingerprint_for_account :
    (read_uint32 : ℕ → ℕ) (env_tz : String) → Overrides → Fingerprint
unfolding pick_from_pool
fingerprint_for_account h env_tz o =
    let explicit_tz = or_text o.timezone_id env_tz in
    let zone = zone_of (
      if truthy explicit_tz
      then some (record { tz = explicit_tz; locale = or_text o.locale "en-US" })
      else pick_from_pool tz_pool h 0) in
    record {
      user_agent = if truthy o.user_agent then some o.user_agent else pick_from_pool ua_pool h 4;
      viewport = elim o.viewport [ none ↦ pick_from_pool viewport_pool h 8 | some v ↦ some v ];
      timezone_id = zone.0;
      locale = zone.1;
      device_scale_factor = 1;
      has_touch = false;
      is_mobile = false;
      color_scheme = "light";
    }

get_elem?-below {ℓ} :
    {A : Type ℓ} (xs : List A) (i : ℕ) → i < length xs → (a : A) × (get_elem? xs i ≡ some a)
get_elem?-below [] i h = absurd (omega arith)
get_elem?-below (x ∷ xs) zero h = (x, refl)
get_elem?-below (x ∷ xs) (suc i) h = get_elem?-below xs i (omega arith)

-- A pool that is not empty always yields one of its entries.
pub pick_from_pool-In {ℓ} :
    {A : Type ℓ} (pool : List A) (h : ℕ → ℕ) (offset : ℕ)
    → 0 < length pool
    → (a : A) × (pick_from_pool pool h offset ≡ some a) × In a pool
unfolding pick_from_pool
pick_from_pool-In pool h offset p =
    let i = h (offset % 28) % length pool in
    let (a, e) = get_elem?-below pool i (grind arith) in (a, e, (i, e))

chosen_or_picked_lem {ℓ} :
    {A : Type ℓ} (b : Bool) (a : A) (pool : List A) (h : ℕ → ℕ) (offset : ℕ)
    → 0 < length pool
    → (v : A) × ((if b then some a else pick_from_pool pool h offset) ≡ some v)
      × (((b ≡ true) × (v ≡ a)) ⊎ ((b ≡ false) × In v pool))
chosen_or_picked_lem true a pool h offset p = (a, refl, inl (refl, refl))
chosen_or_picked_lem false a pool h offset p =
    let (v, e, m) = pick_from_pool-In pool h offset p in (v, e, inr (refl, m))

module _ (h : ℕ → ℕ) (env_tz : String) (o : Overrides) where
  -- Whatever the digest, the user agent is the override if there is one, else an entry of the pool;
  -- the time zone and the locale are the explicit ones, or one entry of the pool.
  pub fingerprint_for_account_lem :
      ((ua : String) × ((fingerprint_for_account h env_tz o).user_agent ≡ some ua)
        × (((truthy o.user_agent ≡ true) × (ua ≡ o.user_agent))
            ⊎ ((truthy o.user_agent ≡ false) × In ua ua_pool)))
      × ((z : Zone) × ((fingerprint_for_account h env_tz o).timezone_id ≡ some z.tz)
          × ((fingerprint_for_account h env_tz o).locale ≡ some z.locale)
          × (((truthy (or_text o.timezone_id env_tz) ≡ true)
                × (z ≡ record {
                  tz = or_text o.timezone_id env_tz;
                  locale = or_text o.locale "en-US";
                }))
              ⊎ ((truthy (or_text o.timezone_id env_tz) ≡ false) × In z tz_pool)))
  unfolding fingerprint_for_account
  fingerprint_for_account_lem =
      let (z, e, m) =
        chosen_or_picked_lem (truthy (or_text o.timezone_id env_tz)) _ tz_pool h 0 (omega arith) in
      (
        chosen_or_picked_lem (truthy o.user_agent) o.user_agent ua_pool h 4 (omega arith),
        (z, ap (λ p. (zone_of p).0) e, ap (λ p. (zone_of p).1) e, m),
      )
