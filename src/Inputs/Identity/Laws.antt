-- ===== src/Inputs/Identity/Laws.antt =====
-- One spelling for each key, with upper case letters where there is one.
use linkedin_hyper_v.Prelude.{
  ◌≡◌, ◌⊎◌, ◌∙◌, refl, inl, inr, String, Bool, true, false, Option, none, some, List, [], ◌∷◌,
  arith, Every, includes, map, Option-cases, truthy, str_eq, eq_iff, TextMap, map_get,
  map_get-map_set, Bool-cases,
}
use linkedin_hyper_v.Inputs.Identity.{
  Script, normalize_account_key, preferred, choose, choose_all, dedupe_account_ids,
}

module _ (js : Script) where
  -- A spelling is no worse than a candidate: it is not empty, it is the candidate up to case, and it
  -- has an upper case letter if the candidate has one.
  abbrev pub Serves : Option String → String → Type 0
  Serves none raw = ◌≡◌ {A = Bool} false true
  Serves (some id) raw =
      (truthy id ≡ true)
      × (js.lower (js.trim id) ≡ js.lower (js.trim raw))
      × ((js.has_uppercase raw ≡ false) ⊎ (js.has_uppercase id ≡ true))

  -- The spelling that is kept for a key, if there is one, has the key.
  abbrev Fits : Option String → String → Type 0
  Fits none key = Unit
  Fits (some id) key = js.lower (js.trim id) ≡ key

  abbrev Keyed : TextMap String → Type 0
  Keyed chosen = (key : String) → Fits (map_get chosen key) key

  preferred-Serves :
      (previous : Option String) (raw : String)
      → truthy raw ≡ true
      → Fits previous (js.lower (js.trim raw))
      → Serves (some (preferred js previous raw)) raw
  unfolding preferred
  preferred-Serves none raw t f =
      (t, refl, elim (Bool-cases (js.has_uppercase raw)) [ inl u ↦ inr u | inr l ↦ inl l ])
  preferred-Serves (some previous) raw t f = (ground arith, ground arith, ground arith)

  preferred-keeps :
      (previous : Option String) (raw other : String)
      → truthy raw ≡ true
      → Fits previous (js.lower (js.trim raw))
      → Serves previous other
      → Serves (some (preferred js previous raw)) other
  unfolding preferred
  preferred-keeps none raw other t f h = cc
  preferred-keeps (some previous) raw other t f (p, k, h) =
      (ground arith, ground arith, ground arith)

  preferred-Fits :
      (previous : Option String) (raw : String)
      → Fits previous (js.lower (js.trim raw))
      → js.lower (js.trim (preferred js previous raw)) ≡ js.lower (js.trim raw)
  unfolding preferred
  preferred-Fits none raw f = refl
  preferred-Fits (some previous) raw f = ground arith

  choose-Fits :
      (chosen : TextMap String) (candidate : String)
      → Keyed chosen
      → Keyed (choose js chosen candidate)
  unfolding choose normalize_account_key
  choose-Fits chosen candidate f key =
      let new = js.trim candidate in
      let k = js.lower (js.trim new) in
      elim (Bool-cases (truthy new)) [
        | inl named ↦
            rw (named, map_get-map_set chosen k key (preferred js (map_get chosen k) new))
              (elim (Bool-cases (str_eq k key)) [
                | inl same ↦
                    rw same (preferred-Fits (map_get chosen k) new (f k) ∙ (eq_iff k key).0 same)
                | inr differs ↦ rw differs (f key)
              ])
        | inr blank ↦ rw blank (f key)
      ]

  -- What serves a candidate goes on to serve it.
  choose-keeps :
      (chosen : TextMap String) (candidate key raw : String)
      → Keyed chosen
      → Serves (map_get chosen key) raw
      → Serves (map_get (choose js chosen candidate) key) raw
  unfolding choose normalize_account_key
  choose-keeps chosen candidate key raw f h =
      let new = js.trim candidate in
      let k = js.lower (js.trim new) in
      elim (Bool-cases (truthy new)) [
        | inl named ↦
            rw (named, map_get-map_set chosen k key (preferred js (map_get chosen k) new))
              (elim (Bool-cases (str_eq k key)) [
                | inl same ↦ rw same (
                    preferred-keeps (map_get chosen k) new raw named (f k)
                      (rw ((eq_iff k key).0 same) h))
                | inr differs ↦ rw differs h
              ])
        | inr blank ↦ rw blank h
      ]

  choose-Serves :
      (chosen : TextMap String) (candidate : String)
      → Keyed chosen
      → truthy (js.trim candidate) ≡ true
      → Serves
          (map_get (choose js chosen candidate) (normalize_account_key js (js.trim candidate)))
          (js.trim candidate)
  unfolding choose normalize_account_key
  choose-Serves chosen candidate f named =
      let new = js.trim candidate in
      let k = js.lower (js.trim new) in
      rw
        (
          named,
          map_get-map_set chosen k k (preferred js (map_get chosen k) new),
          (eq_iff k k).1 refl,
        )
        (preferred-Serves (map_get chosen k) new named (f k))

  choose_all-keeps :
      (ids : List String) (chosen : TextMap String) (key raw : String)
      → Keyed chosen
      → Serves (map_get chosen key) raw
      → Serves (map_get (choose_all js chosen ids) key) raw
  unfolding choose_all
  choose_all-keeps [] chosen key raw f h = h
  choose_all-keeps (candidate ∷ rest) chosen key raw f h =
      choose_all-keeps rest (choose js chosen candidate) key raw (choose-Fits chosen candidate f)
        (choose-keeps chosen candidate key raw f h)

  -- A candidate is blank, or its key has a spelling that serves it.
  abbrev pub IsServed : TextMap String → String → Type 0
  IsServed chosen candidate =
      (truthy (js.trim candidate) ≡ false)
      ⊎ Serves (map_get chosen (normalize_account_key js (js.trim candidate))) (js.trim candidate)

  choose_all-IsServed :
      (ids : List String) (chosen : TextMap String)
      → Keyed chosen
      → Every (IsServed (choose_all js chosen ids)) ids
  unfolding choose_all
  choose_all-IsServed [] chosen f = tt
  choose_all-IsServed (candidate ∷ rest) chosen f = (
    elim (Bool-cases (truthy (js.trim candidate))) [
      | inl named ↦ inr (
          choose_all-keeps rest (choose js chosen candidate)
            (normalize_account_key js (js.trim candidate)) (js.trim candidate)
            (choose-Fits chosen candidate f) (choose-Serves chosen candidate f named))
      | inr blank ↦ inl blank
    ],
    choose_all-IsServed rest (choose js chosen candidate) (choose-Fits chosen candidate f),
  )

  includes-map_get :
      (m : TextMap String) (key id : String)
      → map_get m key ≡ some id
      → includes (map (λ e. e.1) m) id ≡ true
  unfolding map_get
  includes-map_get [] key id h = cc
  includes-map_get (entry ∷ rest) key id h = elim (Bool-cases (str_eq entry.0 key)) [
    | inl here ↦ ground (arith, eq_iff entry.1 id)
    | inr later ↦ ground (arith, includes-map_get rest key id)
  ]

  -- A candidate is blank, or the list has a spelling that serves it.
  abbrev pub IsListed : List String → String → Type 0
  IsListed ids candidate =
      (truthy (js.trim candidate) ≡ false)
      ⊎ ((id : String) × (includes ids id ≡ true) × Serves (some id) (js.trim candidate))

  IsServed-IsListed :
      (m : TextMap String) (candidate : String)
      → IsServed m candidate
      → IsListed (map (λ e. e.1) m) candidate
  IsServed-IsListed m candidate (inl blank) = inl blank
  IsServed-IsListed m candidate (inr served) =
      elim (Option-cases (map_get m (normalize_account_key js (js.trim candidate)))) [
        | inl none_found ↦ absurd (no-spelling none_found)
        | inr (id, found) ↦ inr (
          id,
          includes-map_get m (normalize_account_key js (js.trim candidate)) id found,
          spelling id found,
        )
      ]
    where
      false-ne-true : ◌≡◌ {A = Bool} false true → ⊥
      false-ne-true h = ground arith

      no-spelling : map_get m (normalize_account_key js (js.trim candidate)) ≡ none → ⊥
      no-spelling e = false-ne-true (rw e at served)

      spelling :
          (id : String)
          → map_get m (normalize_account_key js (js.trim candidate)) ≡ some id
          → Serves (some id) (js.trim candidate)
      spelling id e = rw e at served

  all-IsListed :
      (m : TextMap String) (ids : List String)
      → Every (IsServed m) ids
      → Every (IsListed (map (λ e. e.1) m)) ids
  all-IsListed m [] h = tt
  all-IsListed m (candidate ∷ rest) h = (IsServed-IsListed m candidate h.0, all-IsListed m rest h.1)

  none-Keyed : Keyed []
  unfolding map_get
  none-Keyed key = tt

  -- For every candidate that is not blank, the list of ids has a spelling that is not empty, is the
  -- candidate up to blanks around it and case, and has an upper case letter if the candidate has one.
  pub dedupe_account_ids-IsListed :
      (ids : List String) → Every (IsListed (dedupe_account_ids js ids)) ids
  unfolding dedupe_account_ids
  dedupe_account_ids-IsListed ids =
      all-IsListed (choose_all js [] ids) ids (choose_all-IsServed ids [] none-Keyed)
