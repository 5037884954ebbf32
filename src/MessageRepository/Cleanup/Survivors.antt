-- ===== src/MessageRepository/Cleanup/Survivors.antt =====
-- Which rows the cleanup keeps.
use linkedin_hyper_v.Prelude.{
  ℕ, ◌≤◌, ◌≡◌, ◌⊎◌, inl, inr, String, true, false, ◌||◌, none, some, List, [], ◌∷◌, ◌++◌, arith,
  str_eq, eq_iff, includes, TextMap, map_get, map_set, map_get-map_set, Bool-cases,
}
use linkedin_hyper_v.Normalizer.{Script}
use linkedin_hyper_v.MessageRepository.{Row, rank_message_for_survival}
use linkedin_hyper_v.MessageRepository.Cleanup.{cleanup_key}

pub includes-append :
    (xs : List String) (y z : String) → includes (xs ++ (y ∷ [])) z ≡ (includes xs z || str_eq y z)
includes-append [] y z = ground arith
includes-append (x ∷ xs) y z = ground (arith, includes-append xs y z)

module _ (js : Script) (show : ℕ → String) where
  abbrev pub key : Row → String
  key = cleanup_key js show

  abbrev pub rank : Row → ℕ
  rank = rank_message_for_survival js

  abbrev pub ids : List Row → List String
  ids [] = []
  ids (row ∷ rest) = row.id ∷ ids rest

  -- The ids of the rows differ.
  abbrev pub Distinct : List Row → Type 0
  Distinct [] = Unit
  Distinct (row ∷ rest) = (includes (ids rest) row.id ≡ false) × Distinct rest

  pub record Good (seen : TextMap Row) (duplicates : List String) (rest : List Row) : Type 0 where
    pub keyed : (k : String) (s : Row) → map_get seen k ≡ some s → key s ≡ k
    pub kept : (k : String) (s : Row) → map_get seen k ≡ some s → includes duplicates s.id ≡ false
    pub past : (k : String) (s : Row) → map_get seen k ≡ some s → includes (ids rest) s.id ≡ false
    pub unread : (i : String) → includes (ids rest) i ≡ true → includes duplicates i ≡ false
    pub apart :
        (k l : String) (s t : Row)
        → map_get seen k ≡ some s
        → map_get seen l ≡ some t
        → s.id ≡ t.id
        → k ≡ l

  -- The row is a duplicate or the one of its key, which ranks at least as high.
  abbrev pub Covers : TextMap Row → List String → Row → Type 0
  Covers seen duplicates row =
      (s : Row) × (map_get seen (key row) ≡ some s)
      × (rank row ≤ rank s)
      × ((includes duplicates row.id ≡ true) ⊎ (row.id ≡ s.id))

  pub settled-new :
      (seen : TextMap Row) (duplicates : List String) (m : Row) (rest : List Row)
      → map_get seen (key m) ≡ none
      → includes (ids rest) m.id ≡ false
      → Good seen duplicates (m ∷ rest)
      → Good (map_set seen (key m) m) duplicates rest
  settled-new seen duplicates m rest new d g = record {
    keyed =
        λ k s h. ground (arith, map_get-map_set seen (key m) k m, eq_iff (key m) k, g.keyed k s);
    kept = λ k s h. ground (
      arith,
      map_get-map_set seen (key m) k m,
      eq_iff (key m) k,
      g.kept k s,
      g.unread m.id,
      eq_iff m.id m.id,
    );
    past = λ k s h. ground (arith, map_get-map_set seen (key m) k m, eq_iff (key m) k, g.past k s);
    unread = λ i h. ground (arith, g.unread i);
    apart = λ k l s t a b e. ground (
      arith,
      map_get-map_set seen (key m) k m,
      map_get-map_set seen (key m) l m,
      eq_iff (key m) k,
      eq_iff (key m) l,
      g.apart k l s t,
      g.past k s,
      g.past l t,
      eq_iff m.id m.id,
    );
  }

  -- The key keeps its row, or gets the new one; the other is a duplicate.
  pub settled-stays :
      (seen : TextMap Row) (duplicates : List String) (e m : Row) (rest : List Row)
      → map_get seen (key m) ≡ some e
      → includes (ids rest) m.id ≡ false
      → Good seen duplicates (m ∷ rest)
      → Good (map_set seen (key m) e) (duplicates ++ (m.id ∷ [])) rest
  settled-stays seen duplicates e m rest old d g = record {
    keyed = λ k s h.
        ground (
          arith,
          map_get-map_set seen (key m) k e,
          eq_iff (key m) k,
          g.keyed k s,
          g.keyed (key m) e,
        );
    kept = λ k s h. ground (
      arith,
      map_get-map_set seen (key m) k e,
      eq_iff (key m) k,
      g.kept k s,
      g.kept (key m) e,
      g.past k s,
      g.past (key m) e,
      eq_iff m.id s.id,
      includes-append duplicates m.id s.id,
    );
    past = λ k s h.
        ground
          (arith, map_get-map_set seen (key m) k e, eq_iff (key m) k, g.past k s, g.past (key m) e);
    unread = λ i h. ground (arith, g.unread i, includes-append duplicates m.id i, eq_iff m.id i);
    apart = λ k l s t a b e'. ground (
      arith,
      map_get-map_set seen (key m) k e,
      map_get-map_set seen (key m) l e,
      eq_iff (key m) k,
      eq_iff (key m) l,
      g.apart k l s t,
      g.apart (key m) l s t,
      g.apart k (key m) s t,
    );
  }

  pub settled-moves :
      (seen : TextMap Row) (duplicates : List String) (e m : Row) (rest : List Row)
      → map_get seen (key m) ≡ some e
      → includes (ids rest) m.id ≡ false
      → Good seen duplicates (m ∷ rest)
      → Good (map_set seen (key m) m) (duplicates ++ (e.id ∷ [])) rest
  settled-moves seen duplicates e m rest old d g = record {
    keyed =
        λ k s h. ground (arith, map_get-map_set seen (key m) k m, eq_iff (key m) k, g.keyed k s);
    kept = λ k s h. ground (
      arith,
      map_get-map_set seen (key m) k m,
      eq_iff (key m) k,
      g.kept k s,
      g.unread m.id,
      g.past (key m) e,
      g.apart k (key m) s e,
      eq_iff e.id s.id,
      eq_iff m.id m.id,
      includes-append duplicates e.id s.id,
    );
    past = λ k s h. ground (arith, map_get-map_set seen (key m) k m, eq_iff (key m) k, g.past k s);
    unread = λ i h.
        ground
          (arith, g.unread i, includes-append duplicates e.id i, eq_iff e.id i, g.past (key m) e);
    apart = λ k l s t a b e'. ground (
      arith,
      map_get-map_set seen (key m) k m,
      map_get-map_set seen (key m) l m,
      eq_iff (key m) k,
      eq_iff (key m) l,
      g.apart k l s t,
      g.past k s,
      g.past l t,
      eq_iff m.id m.id,
    );
  }

  pub Covers-new :
      (seen : TextMap Row) (duplicates : List String) (m row : Row)
      → map_get seen (key m) ≡ none
      → Covers seen duplicates row
      → Covers (map_set seen (key m) m) duplicates row
  Covers-new seen duplicates m row new (s, h, r, c) =
      (s, ground (arith, map_get-map_set seen (key m) (key row) m, eq_iff (key m) (key row)), r, c)

  pub Covers-stays :
      (seen : TextMap Row) (duplicates : List String) (e m row : Row)
      → map_get seen (key m) ≡ some e
      → Covers seen duplicates row
      → Covers (map_set seen (key m) e) (duplicates ++ (m.id ∷ [])) row
  Covers-stays seen duplicates e m row old (s, h, r, c) = (
    s,
    ground (arith, map_get-map_set seen (key m) (key row) e, eq_iff (key m) (key row)),
    r,
    ground (arith, includes-append duplicates m.id row.id),
  )

  pub Covers-moves :
      (seen : TextMap Row) (duplicates : List String) (e m row : Row)
      → map_get seen (key m) ≡ some e
      → rank e ≤ rank m
      → Covers seen duplicates row
      → Covers (map_set seen (key m) m) (duplicates ++ (e.id ∷ [])) row
  Covers-moves seen duplicates e m row old better (s, h, r, c) =
      elim (Bool-cases (str_eq (key m) (key row))) [
        | inl same ↦ (
          m,
          ground (arith, map_get-map_set seen (key m) (key row) m),
          ground (arith, eq_iff (key m) (key row)),
          ground (
            arith,
            includes-append duplicates e.id row.id,
            eq_iff (key m) (key row),
            eq_iff e.id row.id,
          ),
        )
        | inr differ ↦ (
          s,
          ground (arith, map_get-map_set seen (key m) (key row) m),
          r,
          ground (arith, includes-append duplicates e.id row.id),
        )
      ]
