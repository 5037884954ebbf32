-- ===== src/MessageRepository/Cleanup/Best.antt =====
-- What the cleanup of a conversation comes to.
use mathlib.Core.Path.{subst}
use linkedin_hyper_v.Prelude.{
  ℕ, ◌≤◌, ◌≡◌, ◌⊎◌, ◌∙◌, ◌/◌, sym, ap, truthy, template, Bool-cases, refl, inl, inr, String, Bool,
  true, false, Option, none, some, List, [], ◌∷◌, ◌++◌, arith, if◌then◌else◌, str_eq, eq_iff,
  includes, TextMap, map_get, map_set, map_get-map_set, leb, Every,
}
use linkedin_hyper_v.Normalizer.{Script, text_of}
use linkedin_hyper_v.MessageRepository.{Row, normalize_message_text, rank_message_for_survival}
use linkedin_hyper_v.MessageRepository.Cleanup.{cleanup_key, survivor_of, settled, find_duplicates}
use linkedin_hyper_v.MessageRepository.Cleanup.Survivors.{
  Good, Covers, Distinct, ids, includes-append, settled-new, settled-stays, settled-moves,
  Covers-new, Covers-stays, Covers-moves,
}

-- The row is one of the list.
abbrev pub IsIn : Row → List Row → Type 0
IsIn row [] = ⊥
IsIn row (r ∷ rest) = (row ≡ r) ⊎ IsIn row rest

module _ (js : Script) (show : ℕ → String) where
  abbrev key : Row → String
  key = cleanup_key js show

  abbrev rank : Row → ℕ
  rank = rank_message_for_survival js

  other_id :
      (seen : TextMap Row) (duplicates : List String) (e m : Row) (rest : List Row)
      → map_get seen (key m) ≡ some e
      → Good js show seen duplicates (m ∷ rest)
      → str_eq e.id m.id ≡ false
  other_id seen duplicates e m rest old g =
      ground (arith, g.past (key m) e old, eq_iff m.id e.id, eq_iff e.id m.id)

  abbrev After :
      (seen : TextMap Row) (duplicates : List String) (m : Row) (rest : List Row)
      → TextMap Row × List String
      → Type 0
  After seen duplicates m rest (seen', duplicates') =
      Good js show seen' duplicates' rest
      × ((row : Row) → Covers js show seen duplicates row → Covers js show seen' duplicates' row)
      × Covers js show seen' duplicates' m

  settled_at : (seen : TextMap Row) (m : Row) → map_get (map_set seen (key m) m) (key m) ≡ some m
  settled_at seen m = ground (arith, map_get-map_set seen (key m) (key m) m, eq_iff (key m) (key m))

  settled_existing :
      (seen : TextMap Row) (duplicates : List String) (e m : Row) (rest : List Row) (keeps : Bool)
      → leb (rank m) (rank e) ≡ keeps
      → map_get seen (key m) ≡ some e
      → includes (ids js show rest) m.id ≡ false
      → Good js show seen duplicates (m ∷ rest)
      → After seen duplicates m rest (
        map_set seen (key m) (if keeps then e else m),
        duplicates ++ ((if str_eq (if keeps then e else m).id m.id then e else m).id ∷ []),
      )
  settled_existing seen duplicates e m rest true b old d g =
      rw (other_id seen duplicates e m rest old g) (
        settled-stays js show seen duplicates e m rest old d g,
        λ row. Covers-stays js show seen duplicates e m row old,
        (
          e,
          ground (arith, map_get-map_set seen (key m) (key m) e, eq_iff (key m) (key m)),
          ground arith,
          inl (ground (arith, includes-append duplicates m.id m.id, eq_iff m.id m.id)),
        ),
      )
  settled_existing seen duplicates e m rest false b old d g = rw ((eq_iff m.id m.id).1 refl) (
    settled-moves js show seen duplicates e m rest old d g,
    λ row. Covers-moves js show seen duplicates e m row old (ground arith),
    (m, settled_at seen m, omega arith, inr refl),
  )

  settled-After :
      (seen : TextMap Row) (duplicates : List String) (m : Row) (rest : List Row) (o : Option Row)
      → map_get seen (key m) ≡ o
      → includes (ids js show rest) m.id ≡ false
      → Good js show seen duplicates (m ∷ rest)
      → After seen duplicates m rest (settled js show o seen duplicates m)
  settled-After seen duplicates m rest none new d g = (
    settled-new js show seen duplicates m rest new d g,
    λ row. Covers-new js show seen duplicates m row new,
    (m, settled_at seen m, omega arith, inr refl),
  )
  settled-After seen duplicates m rest (some e) old d g =
      settled_existing seen duplicates e m rest (leb (rank m) (rank e)) refl old d g

  find_duplicates-After :
      (rows : List Row) (seen : TextMap Row) (duplicates : List String)
      → Distinct js show rows
      → Good js show seen duplicates rows
      → let result = find_duplicates js show rows seen duplicates in
        Good js show result.0 result.1 []
        × ((row : Row) → Covers js show seen duplicates row → Covers js show result.0 result.1 row)
        × Every (Covers js show result.0 result.1) rows
  unfolding find_duplicates
  find_duplicates-After [] seen duplicates d g = (g, λ row c. c, tt)
  find_duplicates-After (m ∷ rest) seen duplicates (d, ds) g =
      let (g', keeps, own) = settled-After seen duplicates m rest (map_get seen (key m)) refl d g in
      let next = settled js show (map_get seen (key m)) seen duplicates m in
      let (g'', keeps', owns) = find_duplicates-After rest next.0 next.1 ds g' in
      (g'', λ row c. keeps' row (keeps row c), (keeps' m own, owns))

  none-Good : (rows : List Row) → Good js show [] [] rows
  unfolding map_get
  none-Good rows = record {
    keyed = λ k s h. cc;
    kept = λ k s h. cc;
    past = λ k s h. cc;
    unread = λ i h. refl;
    apart = λ k l s t a b e. cc;
  }

  survivor_of-IsIn :
      (all : List Row) (e m : Row) → IsIn e all → IsIn m all → IsIn (survivor_of js show e m) all
  survivor_of-IsIn all e m h k = elim (Bool-cases (leb (rank m) (rank e))) [
    | inl stays ↦ rw stays h
    | inr moves ↦ rw moves k
  ]

  map_set-IsIn :
      (all : List Row) (seen : TextMap Row) (j k : String) (m s : Row)
      → (map_get seen k ≡ some s → IsIn s all)
      → IsIn m all
      → map_get (map_set seen j m) k ≡ some s
      → IsIn s all
  map_set-IsIn all seen j k m s old new h = elim (Bool-cases (str_eq j k)) [
    | inl here ↦ subst (λ r. IsIn r all) (ground (arith, map_get-map_set seen j k m)) new
    | inr there ↦ old (ground (arith, map_get-map_set seen j k m))
  ]

  settled-IsIn :
      (all : List Row) (seen : TextMap Row) (duplicates : List String) (m : Row) (o : Option Row)
      → map_get seen (key m) ≡ o
      → ((k : String) (s : Row) → map_get seen k ≡ some s → IsIn s all)
      → IsIn m all
      → (k : String) (s : Row) → map_get (settled js show o seen duplicates m).0 k ≡ some s
      → IsIn s all
  settled-IsIn all seen duplicates m none e old new k s h =
      map_set-IsIn all seen (key m) k m s (old k s) new h
  settled-IsIn all seen duplicates m (some r) e old new k s h =
      map_set-IsIn all seen (key m) k (survivor_of js show r m) s (old k s)
        (survivor_of-IsIn all r m (old (key m) r e) new) h

  -- The row that a key keeps is one of the rows.
  find_duplicates-IsIn :
      (all rows : List Row) (seen : TextMap Row) (duplicates : List String)
      → ((k : String) (s : Row) → map_get seen k ≡ some s → IsIn s all)
      → ((row : Row) → IsIn row rows → IsIn row all)
      → (k : String) (s : Row) → map_get (find_duplicates js show rows seen duplicates).0 k ≡ some s
      → IsIn s all
  unfolding find_duplicates
  find_duplicates-IsIn all [] seen duplicates old new k s h = old k s h
  find_duplicates-IsIn all (m ∷ rest) seen duplicates old new k s h =
      let next = settled js show (map_get seen (key m)) seen duplicates m in
      find_duplicates-IsIn all rest next.0 next.1
        (settled-IsIn all seen duplicates m (map_get seen (key m)) refl old (new m (inl refl)))
        (λ row i. new row (inr i)) k s h

  Every-IsIn :
      (seen : TextMap Row) (duplicates : List String) (rows : List Row) (row : Row)
      → Every (Covers js show seen duplicates) rows
      → IsIn row rows
      → Covers js show seen duplicates row
  Every-IsIn seen duplicates [] row c i = absurd i
  Every-IsIn seen duplicates (r ∷ rest) row (c, cs) (inl same) =
      subst (Covers js show seen duplicates) (sym same) c
  Every-IsIn seen duplicates (r ∷ rest) row (c, cs) (inr later) =
      Every-IsIn seen duplicates rest row cs later

  -- The group of a row: its dedupe key, else the hash of its content, else its sender, its text and the
  -- ten minutes of its time.
  abbrev pub group_of : Row → String
  group_of row =
      if truthy (text_of row.dedupe_key)
      then template ("dedupe:" ∷ text_of row.dedupe_key ∷ [])
      else (if truthy (text_of row.content_hash)
          then template ("hash:" ∷ text_of row.content_hash ∷ [])
          else template (
              "fuzzy|"
              ∷ row.sender_id
              ∷ "|"
              ∷ normalize_message_text js row.text
              ∷ "|"
              ∷ show (row.sent_at / 600000)
              ∷ []))

  group_of_lem : (row : Row) → key row ≡ group_of row
  unfolding cleanup_key
  group_of_lem row = refl

  empty_map : (k : String) (s : Row) → map_get [] k ≡ some s → ⊥
  unfolding map_get
  empty_map k s h = cc

  -- Of rows with different ids, take two in one group, by their dedupe key, else the hash of the content,
  -- else the sender, the text and ten minutes of time: the cleanup hides one of the two at least, unless
  -- they are the same, and one of the rows in the group ranks at least as high as the first and is not
  -- hidden.
  pub find_duplicates-best :
      (rows : List Row) (row other : Row)
      → Distinct js show rows
      → IsIn row rows
      → IsIn other rows
      → group_of row ≡ group_of other
      → let hidden = (find_duplicates js show rows [] []).1 in
        ((s : Row) × IsIn s rows
          × (group_of s ≡ group_of row)
          × (rank_message_for_survival js row ≤ rank_message_for_survival js s)
          × (includes hidden s.id ≡ false))
        × ((includes hidden row.id ≡ true)
            ⊎ (includes hidden other.id ≡ true)
            ⊎ (row.id ≡ other.id))
  find_duplicates-best rows row other d i j e =
      let (g, keeps, owns) = find_duplicates-After rows [] [] d (none-Good rows) in
      let result = find_duplicates js show rows [] [] in
      let (s, h, r, c) = Every-IsIn result.0 result.1 rows row owns i in
      let (t, k, q, b) = Every-IsIn result.0 result.1 rows other owns j in
      let same = group_of_lem row ∙ e ∙ sym (group_of_lem other) in
      (
        (
          s,
          find_duplicates-IsIn rows rows [] [] (λ k' s' h'. absurd (empty_map k' s' h'))
              (λ r' i'. i') (key row) s h,
          sym (group_of_lem s) ∙ g.keyed (key row) s h ∙ group_of_lem row,
          r,
          g.kept (key row) s h,
        ),
        hidden_or_same result.1 row.id other.id s.id t.id c b
            (ap (λ m. m.id) (some_inj s t (sym h ∙ rw same k))),
      )
    where
      hidden_or_same :
          (hidden : List String) (x y a b : String)
          → (includes hidden x ≡ true) ⊎ (x ≡ a)
          → (includes hidden y ≡ true) ⊎ (y ≡ b)
          → a ≡ b
          → (includes hidden x ≡ true) ⊎ (includes hidden y ≡ true) ⊎ (x ≡ y)
      hidden_or_same hidden x y a b (inl h) k e = inl h
      hidden_or_same hidden x y a b (inr h) (inl k) e = inr (inl k)
      hidden_or_same hidden x y a b (inr h) (inr k) e = inr (inr (h ∙ e ∙ sym k))

      some_inj : (s t : Row) → ◌≡◌ {A = Option Row} (some s) (some t) → s ≡ t
      some_inj s t e = cc
