-- ===== src/Normalizer/Json.antt =====
-- Values as `JSON.stringify` sees them, and the hash that ignores the order of keys. `Date`s become
-- ISO texts. Keys are compared by `before`, JavaScript's order of texts.
use linkedin_hyper_v.Prelude.{
  ℕ, ◌≡◌, ◌≢◌, ◌⊎◌, refl, inl, inr, ap, sym, ◌∙◌, String, Bool, true, false, arith, if◌then◌else◌,
}

mutual
  pub data Json : Type 0 where
    null : Json
    flag : Bool → Json
    number : ℕ → Json
    text : String → Json
    date : ℕ → Json
    array : Items → Json
    object : Fields → Json

  pub data Items : Type 0 where
    nil : Items
    cons : Json → Items → Items

  pub data Fields : Type 0 where
    end : Fields
    field : String → Json → Fields → Fields

pub record Hashing : Type 0 where
  pub before : String → String → Bool
  pub iso : ℕ → String
  pub stringify : Json → String
  pub digest : String → String

-- What is relied on of the order of texts.
pub record HashingLaws (h : Hashing) : Type 0 where
  pub total : (k l : String) → k ≢ l → (h.before k l ≡ true) ⊎ (h.before l k ≡ true)
  pub asymmetric : (k l : String) → h.before k l ≡ true → h.before l k ≡ false
  pub transitive :
      (k l m : String) → h.before k l ≡ true → h.before l m ≡ true → h.before k m ≡ true

module _ (h : Hashing) where
  -- A key goes before the first greater one.
  unfoldable pub insert : String → Json → Fields → Fields
  insert k v end = field k v end
  insert k v (field l w rest) =
      if h.before k l then field k v (field l w rest) else field l w (insert k v rest)

unfoldable mutual
  pub canonicalize : Hashing → Json → Json
  canonicalize h null = null
  canonicalize h (flag b) = flag b
  canonicalize h (number n) = number n
  canonicalize h (text t) = text t
  canonicalize h (date ms) = text (h.iso ms)
  canonicalize h (array items) = array (canonicalize_items h items)
  canonicalize h (object fields) = object (canonicalize_fields h fields)

  pub canonicalize_items : Hashing → Items → Items
  canonicalize_items h nil = nil
  canonicalize_items h (cons v rest) = cons (canonicalize h v) (canonicalize_items h rest)

  pub canonicalize_fields : Hashing → Fields → Fields
  canonicalize_fields h end = end
  canonicalize_fields h (field k v rest) =
      insert h k (canonicalize h v) (canonicalize_fields h rest)

unfoldable pub stable_hash : Hashing → Json → String
stable_hash h input = h.digest (h.stringify (canonicalize h input))

-- Objects with the same fields in another order, at any depth.
mutual
  pub data SameJson : Json → Json → Type 0 where
    same : (v : Json) → SameJson v v
    items : (xs ys : Items) → SameItems xs ys → SameJson (array xs) (array ys)
    fields : (fs gs : Fields) → SameFields fs gs → SameJson (object fs) (object gs)

  pub data SameItems : Items → Items → Type 0 where
    none_left : SameItems nil nil
    both :
        (v w : Json) (xs ys : Items)
        → SameJson v w
        → SameItems xs ys
        → SameItems (cons v xs) (cons w ys)

  pub data SameFields : Fields → Fields → Type 0 where
    done : SameFields end end
    in_place :
        (k : String) (v w : Json) (fs gs : Fields)
        → SameJson v w
        → SameFields fs gs
        → SameFields (field k v fs) (field k w gs)
    swap :
        (k l : String) (v w : Json) (fs : Fields)
        → k ≢ l
        → SameFields (field k v (field l w fs)) (field l w (field k v fs))
    trans : (fs gs hs : Fields) → SameFields fs gs → SameFields gs hs → SameFields fs hs

module _ (h : Hashing) (laws : HashingLaws h) where
  insert-insert_ordered :
      (k l : String) (v w : Json) (fs : Fields)
      → h.before k l ≡ true
      → insert h k v (insert h l w fs) ≡ insert h l w (insert h k v fs)
  unfolding insert
  insert-insert_ordered k l v w end a = ground (arith, laws.asymmetric k l a)
  insert-insert_ordered k l v w (field m u rest) a =
      ground (
        arith,
        laws.asymmetric k l a,
        laws.transitive k l m a,
        insert-insert_ordered k l v w rest a,
      )

  -- Two fields may be inserted in either order.
  insert-insert :
      (k l : String) (v w : Json) (fs : Fields)
      → k ≢ l
      → insert h k v (insert h l w fs) ≡ insert h l w (insert h k v fs)
  insert-insert k l v w fs d = elim (laws.total k l d) [
    | inl a ↦ insert-insert_ordered k l v w fs a
    | inr b ↦ sym (insert-insert_ordered l k w v fs b)
  ]

mutual
  unfolding canonicalize canonicalize_items canonicalize_fields

  canonicalize-same :
      (h : Hashing) (laws : HashingLaws h) (v w : Json)
      → SameJson v w
      → canonicalize h v ≡ canonicalize h w
  canonicalize-same h laws v w (same u) = refl
  canonicalize-same h laws v w (items xs ys s) = ap array (canonicalize_items-same h laws xs ys s)
  canonicalize-same h laws v w (fields fs gs s) =
      ap object (canonicalize_fields-same h laws fs gs s)

  canonicalize_items-same :
      (h : Hashing) (laws : HashingLaws h) (xs ys : Items)
      → SameItems xs ys
      → canonicalize_items h xs ≡ canonicalize_items h ys
  canonicalize_items-same h laws xs ys none_left = refl
  canonicalize_items-same h laws xs ys (both v w xs' ys' s r) =
      cc (canonicalize-same h laws v w s, canonicalize_items-same h laws xs' ys' r)

  canonicalize_fields-same :
      (h : Hashing) (laws : HashingLaws h) (fs gs : Fields)
      → SameFields fs gs
      → canonicalize_fields h fs ≡ canonicalize_fields h gs
  canonicalize_fields-same h laws fs gs done = refl
  canonicalize_fields-same h laws fs gs (in_place k v w fs' gs' s r) =
      cc (canonicalize-same h laws v w s, canonicalize_fields-same h laws fs' gs' r)
  canonicalize_fields-same h laws fs gs (swap k l v w rest d) =
      insert-insert h laws k l (canonicalize h v) (canonicalize h w) (canonicalize_fields h rest) d
  canonicalize_fields-same h laws fs gs (trans fs' gs' hs s r) =
      canonicalize_fields-same h laws fs' gs' s ∙ canonicalize_fields-same h laws gs' hs r

-- The order of the fields, at any depth, does not change the hash.
pub stable_hash-same :
    (h : Hashing) (laws : HashingLaws h) (v w : Json)
    → SameJson v w
    → stable_hash h v ≡ stable_hash h w
unfolding stable_hash
stable_hash-same h laws v w s = ap (λ c. h.digest (h.stringify c)) (canonicalize-same h laws v w s)
