-- ===== src/Tests/ListLru.antt =====
-- A map that works as the crate `lru` documents: a list, the most recently used entry first.
use imgx.Base.{Text, none, List, [], ◌∷◌, ◌≡◌, refl, arith, text_eq, length}
use imgx.Cache.Lru.{
  LruCache, lookup, remove, promote, init_of, last?, without_last, IsDistinct, is_nil,
}

module _ {V : Type 0} where
  lookup-remove-none :
      (j k : Text) (l : List (Text × V)) → lookup j l ≡ none → lookup j (remove k l) ≡ none
  unfolding lookup remove
  lookup-remove-none j k [] h = refl
  lookup-remove-none j k ((i, v) ∷ l) h = ground (arith, lookup-remove-none j k l)

  lookup-remove_self :
      (k : Text) (l : List (Text × V)) → IsDistinct l → lookup k (remove k l) ≡ none
  unfolding lookup remove
  lookup-remove_self k [] d = refl
  lookup-remove_self k ((j, v) ∷ l) (d, ds) =
      ground (arith, text_eq.agrees j k, lookup-remove_self k l ds)

  pub remove-IsDistinct : (k : Text) (l : List (Text × V)) → IsDistinct l → IsDistinct (remove k l)
  unfolding remove
  remove-IsDistinct k [] d = tt
  remove-IsDistinct k ((j, v) ∷ l) (d, ds) =
      ground (arith, lookup-remove-none j k l d, remove-IsDistinct k l ds)

  pub promote-IsDistinct :
      (k : Text) (l : List (Text × V)) → IsDistinct l → IsDistinct (promote k l)
  unfolding promote
  promote-IsDistinct k l d = ground (arith, lookup-remove_self k l d, remove-IsDistinct k l d)

  lookup-init_of :
      (j : Text) (e : Text × V) (l : List (Text × V))
      → lookup j (e ∷ l) ≡ none
      → lookup j (init_of e l) ≡ none
  unfolding lookup
  lookup-init_of j e [] h = refl
  lookup-init_of j (i, v) (f ∷ l) h = ground (arith, lookup-init_of j f l)

  init_of-IsDistinct :
      (e : Text × V) (l : List (Text × V)) → IsDistinct (e ∷ l) → IsDistinct (init_of e l)
  init_of-IsDistinct e [] d = tt
  init_of-IsDistinct (i, v) (f ∷ l) (d, ds) = (lookup-init_of i f l d, init_of-IsDistinct f l ds)

  pub without_last-IsDistinct : (l : List (Text × V)) → IsDistinct l → IsDistinct (without_last l)
  without_last-IsDistinct [] d = tt
  without_last-IsDistinct (e ∷ l) d = init_of-IsDistinct e l d

  pub put-IsDistinct :
      (k : Text) (v : V) (l : List (Text × V)) → IsDistinct l → IsDistinct ((k, v) ∷ remove k l)
  put-IsDistinct k v l d = (lookup-remove_self k l d, remove-IsDistinct k l d)

abbrev pub list_lru : (V : Type 0) → LruCache V
list_lru V = record {
  Map = (l : List (Text × V)) × IsDistinct l;
  unbounded = ([], tt);
  get = λ k m. (lookup k m.0, (promote k m.0, promote-IsDistinct k m.0 m.1));
  pop = λ k m. (lookup k m.0, (remove k m.0, remove-IsDistinct k m.0 m.1));
  pop_lru = λ m. (last? m.0, (without_last m.0, without_last-IsDistinct m.0 m.1));
  put = λ k v m. ((k, v) ∷ remove k m.0, put-IsDistinct k v m.0 m.1);
  clear = λ m. ([], tt);
  len = λ m. length m.0;
  is_empty = λ m. is_nil m.0;
  entries = λ m. m.0;
  entries-IsDistinct = λ m. m.1;
  entries-unbounded = refl;
  get_value = λ k m. refl;
  entries-get = λ k m. refl;
  pop_value = λ k m. refl;
  entries-pop = λ k m. refl;
  pop_lru_value = λ m. refl;
  entries-pop_lru = λ m. refl;
  entries-put = λ k v m. refl;
  entries-clear = λ m. refl;
  len-entries = λ m. refl;
  is_empty-entries = λ m. refl;
}
