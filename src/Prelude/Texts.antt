-- ===== src/Prelude/Texts.antt =====
-- Texts: JavaScript's falsy empty text, and dictionaries keyed by texts (a JavaScript `Map`).
use Prim.Native.Nat.{◌-◌}
use Prim.Native.String
use Prim.Native.String.{String}
use mathlib.Core.Path.{◌≡◌, refl, sym, ◌∙◌}
use mathlib.Core.Logic.{◌≢◌, inl, inr}
use text.Mathlib.TextLemmas.{append_inj, append_assoc}
use mathlib.Core.Bool.{Bool, true, false, ◌||◌, not}
use mathlib.Core.Option.{Option, none, some}
use mathlib.Core.List.{List, [], ◌∷◌}
use native.Mathlib.Omega.{arith}
use text.Mathlib.Text.{◌==◌, find?}
use text.Mathlib.TextEquality.{eq_iff}
use linkedin_hyper_v.Prelude.Tests.{if◌then◌else◌, Bool-cases}

-- `Boolean(s)` of a text.
abbrev pub truthy : String → Bool
truthy s = not (s == "")

-- `a || b` of texts.
abbrev pub or_text : String → String → String
or_text a b = if truthy a then a else b

-- `[...].includes(s)`.
abbrev pub includes : List String → String → Bool
includes [] s = false
includes (x ∷ xs) s = x == s || includes xs s

-- A template literal, by its pieces.
abbrev pub template : List String → String
template [] = ""
template (piece ∷ rest) = String.◌++◌ piece (template rest)

-- `s.includes(t)` and `s.endsWith(t)`.
abbrev pub has_text : String → String → Bool
has_text s t = elim (find? s t) [ none ↦ false | some i ↦ true ]

abbrev pub ends_with : String → String → Bool
ends_with s t = String.slice s (String.len s - String.len t) (String.len s) == t

-- `s.startsWith(t)`.
abbrev pub starts_with : String → String → Bool
starts_with s t = String.slice s 0 (String.len t) == t

-- Two texts differ if they begin with prefixes of one length that differ.
pub prefix_differs :
    (p q p' q' x y : String)
    → String.count p ≡ String.count q
    → (p == q) ≡ false
    → (String.◌++◌ (String.◌++◌ p p') x == String.◌++◌ (String.◌++◌ q q') y) ≡ false
prefix_differs p q p' q' x y n ne = elim (Bool-cases _) [
  | inl same ↦ absurd (differ (append_inj (joined ((eq_iff _ _).0 same)) n).0)
  | inr differ ↦ differ
]
  where
    differ : p ≢ q
    differ e = ground (arith, eq_iff p q)

    joined :
        String.◌++◌ (String.◌++◌ p p') x ≡ String.◌++◌ (String.◌++◌ q q') y
        → String.◌++◌ p (String.◌++◌ p' x) ≡ String.◌++◌ q (String.◌++◌ q' y)
    joined e = sym (append_assoc p p' x) ∙ (e ∙ append_assoc q q' y)

-- A JavaScript `Map` with text keys, in insertion order: `get`, `set` and `delete`.
abbrev pub TextMap {ℓ} : Type ℓ → Type ℓ
TextMap V = List (String × V)

module _ {ℓ} {V : Type ℓ} where
  unfoldable pub map_get : TextMap V → String → Option V
  map_get [] key = none
  map_get (entry ∷ rest) key = if entry.0 == key then some entry.1 else map_get rest key

  unfoldable pub map_set : TextMap V → String → V → TextMap V
  map_set [] key value = (key, value) ∷ []
  map_set (entry ∷ rest) key value =
      if entry.0 == key then (key, value) ∷ rest else entry ∷ map_set rest key value

  unfoldable pub map_delete : TextMap V → String → TextMap V
  map_delete [] key = []
  map_delete (entry ∷ rest) key =
      let rest' = map_delete rest key in if entry.0 == key then rest' else entry ∷ rest'

  pub map_get-map_set :
      (m : TextMap V) (key other : String) (value : V)
      → map_get (map_set m key value) other ≡ (if key == other then some value else map_get m other)
  unfolding map_get map_set
  map_get-map_set [] key other value = refl
  map_get-map_set (entry ∷ rest) key other value = ground (
    arith,
    map_get-map_set rest key other value,
    eq_iff entry.0 key,
    eq_iff entry.0 other,
    eq_iff key other,
  )

  pub map_get-map_delete :
      (m : TextMap V) (key other : String)
      → map_get (map_delete m key) other ≡ (if key == other then none else map_get m other)
  unfolding map_get map_delete
  map_get-map_delete [] key other = ground arith
  map_get-map_delete (entry ∷ rest) key other = ground (
    arith,
    map_get-map_delete rest key other,
    eq_iff entry.0 key,
    eq_iff entry.0 other,
    eq_iff key other,
  )
