-- ===== src/Harvest/State/Strokes.antt =====
-- Numbers and dates printed in strokes: it shows that the laws of a script can hold, and the
-- witnesses run on it.
use Prim.Native.String
use text.Mathlib.TextLemmas.{length-append}
use linkedin_hyper_v.Prelude.{
  ℕ, zero, suc, ◌-◌, ◌≡◌, ◌≢◌, refl, ap, ◌∙◌, String, true, some, [], ◌∷◌, arith, truthy, eq_iff,
  template,
}
use linkedin_hyper_v.Harvest.State.{Script, ScriptLaws}

unfoldable pub strokes : ℕ → String
strokes zero = ""
strokes (suc n) = String.◌++◌ "1" (strokes n)

pub count-strokes : (n : ℕ) → String.count (strokes n) ≡ n
unfolding strokes
count-strokes zero = refl
count-strokes (suc n) = length-append "1" (strokes n) ∙ omega (arith, count-strokes n)

abbrev pub js : Script
js = record {
  number = λ t. some (String.count t);
  show = strokes;
  time_of = λ t. some (String.count t - 1);
  iso = λ n. strokes (suc n);
  start_of = λ t. some (String.count t - 6);
}

pub nonempty : (n : ℕ) → truthy (strokes (suc n)) ≡ true
nonempty n = ground (arith, eq_iff (strokes (suc n)) "", not-empty)
  where
    not-empty : strokes (suc n) ≢ ""
    not-empty e = omega (arith, count-strokes (suc n), ap String.count e)

pub start-strokes :
    (n : ℕ) → some (String.count (template ("start=" ∷ strokes n ∷ [])) - 6) ≡ some n
start-strokes n = ap some (
    omega (
      arith,
      length-append "start=" (template (strokes n ∷ [])),
      length-append (strokes n) "",
      count-strokes n,
    ))

abbrev pub laws : ScriptLaws js
laws = record {
  number-show = λ n. ap some (count-strokes n);
  time_of-iso = λ n. ap some (omega (arith, count-strokes (suc n)));
  truthy-iso = nonempty;
  start_of-show = start-strokes;
}
