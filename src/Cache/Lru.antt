-- ===== src/Cache/Lru.antt =====
-- The crate `lru`, whose text is not part of the repository: `LruCache<String, V>` as the record
-- of its operations, with their documented effect on the entries in the order of `iter()`, the most
-- recently used first.
use imgx.Base.{
  ℕ, Text, Bool, true, false, Option, none, some, List, [], ◌∷◌, ◌≡◌, ◌==◌, text_eq, if◌then◌else◌,
  length,
}

module _ {V : Type 0} where
  unfoldable pub lookup : Text → List (Text × V) → Option V
  lookup key ((other, value) ∷ entries) = if other == key then some value else lookup key entries
  lookup key [] = none

  unfoldable pub remove : Text → List (Text × V) → List (Text × V)
  remove k [] = []
  remove k ((j, v) ∷ l) = if j == k then l else (j, v) ∷ remove k l

  -- The entry of a key, moved to the front.
  unfoldable pub promote : Text → List (Text × V) → List (Text × V)
  promote k l = elim (lookup k l) [ none ↦ l | some v ↦ (k, v) ∷ remove k l ]

  abbrev pub last_of : Text × V → List (Text × V) → Text × V
  last_of e [] = e
  last_of e (f ∷ l) = last_of f l

  abbrev pub init_of : Text × V → List (Text × V) → List (Text × V)
  init_of e [] = []
  init_of e (f ∷ l) = e ∷ init_of f l

  abbrev pub last? : List (Text × V) → Option (Text × V)
  last? [] = none
  last? (e ∷ l) = some (last_of e l)

  abbrev pub without_last : List (Text × V) → List (Text × V)
  without_last [] = []
  without_last (e ∷ l) = init_of e l

  -- No key occurs twice.
  abbrev pub IsDistinct : List (Text × V) → Type 0
  IsDistinct [] = Unit
  IsDistinct ((k, v) ∷ l) = (lookup k l ≡ none) × IsDistinct l

  abbrev pub is_nil : List (Text × V) → Bool
  is_nil [] = true
  is_nil (e ∷ l) = false

pub record LruCache (V : Type 0) : Type 1 where
  pub Map : Type 0
  pub unbounded : Map
  pub get : Text → Map → Option V × Map
  pub pop : Text → Map → Option V × Map
  pub pop_lru : Map → Option (Text × V) × Map
  pub put : Text → V → Map → Map
  pub clear : Map → Map
  pub len : Map → ℕ
  pub is_empty : Map → Bool
  pub entries : Map → List (Text × V)
  pub entries-IsDistinct : (m : Map) → IsDistinct (entries m)
  pub entries-unbounded : entries unbounded ≡ []
  pub get_value : (k : Text) (m : Map) → (get k m).0 ≡ lookup k (entries m)
  pub entries-get : (k : Text) (m : Map) → entries (get k m).1 ≡ promote k (entries m)
  pub pop_value : (k : Text) (m : Map) → (pop k m).0 ≡ lookup k (entries m)
  pub entries-pop : (k : Text) (m : Map) → entries (pop k m).1 ≡ remove k (entries m)
  pub pop_lru_value : (m : Map) → (pop_lru m).0 ≡ last? (entries m)
  pub entries-pop_lru : (m : Map) → entries (pop_lru m).1 ≡ without_last (entries m)
  pub entries-put :
      (k : Text) (v : V) (m : Map) → entries (put k v m) ≡ (k, v) ∷ remove k (entries m)
  pub entries-clear : (m : Map) → entries (clear m) ≡ []
  pub len-entries : (m : Map) → len m ≡ length (entries m)
  pub is_empty-entries : (m : Map) → is_empty m ≡ is_nil (entries m)
