-- ===== src/MessageRepository/Repair/Ranking.antt =====
-- The survivor of a group of duplicates.
use linkedin_hyper_v.Prelude.{
  suc, ◌≡◌, refl, ap, ◌∙◌, String, Bool, true, false, ◌||◌, List, [], ◌∷◌, arith, length, str_eq,
  includes, Every, Bool-cases, inl, inr,
}
use linkedin_hyper_v.Normalizer.{Script}
use linkedin_hyper_v.Normalizer.Keys.{Printing}
use linkedin_hyper_v.MessageRepository.{Row}
use linkedin_hyper_v.MessageRepository.Repair.{goes_before, insert_ranked, sort_ranked, ids_of}

module _ (js : Script) (p : Printing) where
  abbrev before : Row → Row → Bool
  before = goes_before js p

  -- No row of the list goes before its first.
  abbrev pub Leads : List Row → Type 0
  Leads [] = Unit
  Leads (survivor ∷ rest) = Every (λ row. goes_before js p row survivor ≡ false) rest

  not_before_trans : (a b c : Row) → before a b ≡ false → before b c ≡ false → before a c ≡ false
  not_before_trans a b c h k = ground arith

  before_asym : (a b : Row) → before a b ≡ true → before b a ≡ false
  before_asym a b h = ground arith

  insert-Every :
      (s row : Row) (rows : List Row)
      → before row s ≡ false
      → Every (λ r. before r s ≡ false) rows
      → Every (λ r. before r s ≡ false) (insert_ranked js p row rows)
  unfolding insert_ranked
  insert-Every s row [] h e = (h, tt)
  insert-Every s row (other ∷ rest) h (e, es) = elim (Bool-cases (before other row)) [
    | inl after ↦ rw after (e, insert-Every s row rest h es)
    | inr stays ↦ rw stays (h, (e, es))
  ]

  later-Every :
      (row other : Row) (rows : List Row)
      → before other row ≡ false
      → Every (λ r. before r other ≡ false) rows
      → Every (λ r. before r row ≡ false) rows
  later-Every row other [] h e = tt
  later-Every row other (r ∷ rest) h (e, es) =
      (not_before_trans r other row e h, later-Every row other rest h es)

  insert-Leads : (row : Row) (rows : List Row) → Leads rows → Leads (insert_ranked js p row rows)
  unfolding insert_ranked
  insert-Leads row [] l = tt
  insert-Leads row (other ∷ rest) l = elim (Bool-cases (before other row)) [
    | inl after ↦ rw after (insert-Every other row rest (before_asym other row after) l)
    | inr stays ↦ rw stays (stays, later-Every row other rest stays l)
  ]

  sort-Leads : (rows : List Row) → Leads (sort_ranked js p rows)
  unfolding sort_ranked
  sort-Leads [] = tt
  sort-Leads (row ∷ rest) = insert-Leads row (sort_ranked js p rest) (sort-Leads rest)

  length-insert :
      (row : Row) (rows : List Row) → length (insert_ranked js p row rows) ≡ suc (length rows)
  unfolding insert_ranked
  length-insert row [] = refl
  length-insert row (other ∷ rest) = elim (Bool-cases (before other row)) [
    | inl after ↦ rw after (ap suc (length-insert row rest))
    | inr stays ↦ rw stays refl
  ]

  ids-insert :
      (id : String) (row : Row) (rows : List Row)
      → includes (ids_of js p (insert_ranked js p row rows)) id
        ≡ (str_eq row.id id || includes (ids_of js p rows) id)
  unfolding insert_ranked
  ids-insert id row [] = refl
  ids-insert id row (other ∷ rest) = elim (Bool-cases (before other row)) [
    | inl after ↦ rw after (ground (arith, ids-insert id row rest))
    | inr stays ↦ rw stays refl
  ]

  ids-sort :
      (id : String) (rows : List Row)
      → includes (ids_of js p (sort_ranked js p rows)) id ≡ includes (ids_of js p rows) id
  unfolding sort_ranked
  ids-sort id [] = refl
  ids-sort id (row ∷ rest) =
      ids-insert id row (sort_ranked js p rest) ∙ ap (λ b. str_eq row.id id || b) (ids-sort id rest)

  length-sort : (rows : List Row) → length (sort_ranked js p rows) ≡ length rows
  unfolding sort_ranked
  length-sort [] = refl
  length-sort (row ∷ rest) = length-insert row (sort_ranked js p rest) ∙ ap suc (length-sort rest)

  -- The ranking of a group has its rows, as many as there are; and no row of it goes before the first,
  -- which the repair keeps, by a higher rank, or by an earlier creation at the same rank.
  pub sort_ranked_lem :
      (rows : List Row) (id : String)
      → Leads (sort_ranked js p rows)
        × (length (sort_ranked js p rows) ≡ length rows)
        × (includes (ids_of js p (sort_ranked js p rows)) id ≡ includes (ids_of js p rows) id)
  sort_ranked_lem rows id = (sort-Leads rows, length-sort rows, ids-sort id rows)
