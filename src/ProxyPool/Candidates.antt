-- ===== src/ProxyPool/Candidates.antt =====
-- Which proxies the pool knows: normalizeCandidate and loadCandidates.
use linkedin_hyper_v.Prelude.{
  ◌≡◌, refl, String, Bool, false, ◌||◌, Option, none, some, List, [], ◌∷◌, ◌++◌, arith,
  if◌then◌else◌, includes, template, Every, str_eq, eq_iff, Bool-cases, Option-cases, inl, inr,
}

-- What the regular expressions of normalizeCandidate say of a trimmed text, and `trim` itself.
pub record Syntax : Type 0 where
  pub trim : String → String
  pub is_url : String → Bool
  pub is_host_port : String → Bool

-- The three sources: the split lines of `PROXY_POOL`, of the file where one is named and can be
-- read, and of the answer of the endpoint where one is named, Playwright is there and it is ok.
pub record Sources : Type 0 where
  pub pool_lines : List String
  pub file_lines : Option (List String)
  pub url_lines : Option (List String)

abbrev lines_of : Option (List String) → List String
lines_of none = []
lines_of (some lines) = lines

-- `Set.add`, in insertion order.
add : List String → String → List String
add out c = if includes out c then out else out ++ c ∷ []

-- No entry twice.
abbrev pub NoRepeat : List String → Type 0
NoRepeat [] = Unit
NoRepeat (c ∷ rest) = (includes rest c ≡ false) × NoRepeat rest

includes-append-one :
    (xs : List String) (c d : String) → includes (xs ++ c ∷ []) d ≡ (includes xs d || str_eq c d)
includes-append-one [] c d = ground arith
includes-append-one (x ∷ xs) c d = ground (arith, includes-append-one xs c d)

NoRepeat-append-one :
    (xs : List String) (c : String) → NoRepeat xs → includes xs c ≡ false → NoRepeat (xs ++ c ∷ [])
NoRepeat-append-one [] c n h = (refl, tt)
NoRepeat-append-one (x ∷ xs) c n h = (
  ground (arith, includes-append-one xs c x, eq_iff x c, eq_iff c x),
  NoRepeat-append-one xs c n.1 (ground arith),
)

add-NoRepeat : (out : List String) (c : String) → NoRepeat out → NoRepeat (add out c)
unfolding add
add-NoRepeat out c n = elim (Bool-cases (includes out c)) [
  | inl there ↦ rw there n
  | inr new ↦ rw new (NoRepeat-append-one out c n new)
]

Every-append-one {κ} :
    (P : String → Type κ) (xs : List String) (c : String)
    → Every P xs
    → P c
    → Every P (xs ++ c ∷ [])
Every-append-one P [] c h p = (p, tt)
Every-append-one P (x ∷ xs) c h p = (h.0, Every-append-one P xs c h.1 p)

add-Every {κ} :
    (P : String → Type κ) (out : List String) (c : String) → Every P out → P c → Every P (add out c)
unfolding add
add-Every P out c e p = elim (Bool-cases (includes out c)) [
  | inl there ↦ rw there e
  | inr new ↦ rw new (Every-append-one P out c e p)
]

module _ (x : Syntax) where
  open x use {trim, is_url, is_host_port}

  unfoldable pub normalize_candidate : String → Option String
  normalize_candidate raw =
      let s = trim raw in
      if str_eq s ""
      then none
      else (if is_url s
          then some s
          else (if is_host_port s then some (template ("http://" ∷ s ∷ [])) else none))

  abbrev add_line : List String → Option String → List String
  add_line out none = out
  add_line out (some c) = add out c

  pub add_lines : List String → List String → List String
  add_lines out [] = out
  add_lines out (line ∷ lines) = add_lines (add_line out (normalize_candidate line)) lines

  pub load_candidates : Sources → List String
  unfolding add_lines
  load_candidates src =
      add_lines (add_lines (add_lines [] src.pool_lines) (lines_of src.file_lines))
        (lines_of src.url_lines)

  -- A candidate that the pool accepts: a URL with a scheme of the list, or one made of host:port.
  abbrev pub IsCandidate : String → Type 0
  IsCandidate c = (raw : String) × (normalize_candidate raw ≡ some c)

  add_lines_lem :
      (out lines : List String)
      → NoRepeat out
      → Every IsCandidate out
      → NoRepeat (add_lines out lines) × Every IsCandidate (add_lines out lines)
  unfolding add_lines
  add_lines_lem out [] n e = (n, e)
  add_lines_lem out (line ∷ lines) n e = elim (Option-cases (normalize_candidate line)) [
    | inl skipped ↦ rw (skipped, add_lines) (add_lines_lem out lines n e)
    | inr (c, found) ↦
        rw (found, add_lines)
          (add_lines_lem (add out c) lines (add-NoRepeat out c n)
            (add-Every IsCandidate out c e (line, found)))
  ]

  -- Whatever the three sources hold, the candidates are accepted spellings of their lines, each
  -- listed once.
  pub load_candidates_lem :
      (src : Sources) → NoRepeat (load_candidates src) × Every IsCandidate (load_candidates src)
  unfolding load_candidates
  load_candidates_lem src =
      let (n₁, e₁) = add_lines_lem [] src.pool_lines tt tt in
      let (n₂, e₂) = add_lines_lem _ (lines_of src.file_lines) n₁ e₁ in
      add_lines_lem _ (lines_of src.url_lines) n₂ e₂
