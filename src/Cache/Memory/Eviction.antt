-- ===== src/Cache/Memory/Eviction.antt =====
-- What the eviction loop keeps, as a function of the entries alone.
use imgx.Base.{
  ℕ, Text, none, some, List, [], ◌∷◌, ◌+◌, ◌-◌, ◌≤◌, ◌<◌, ◌≡◌, refl, arith, leb, if◌then◌else◌,
  text_eq,
}
use imgx.Cache.Lru.{lookup, remove, last_of, init_of, without_last}
use imgx.Cache.Memory.{StoredEntry, stored_size}

abbrev pub Entries : Type 0
Entries = List (Text × StoredEntry)

-- The bytes of the payloads.
unfoldable pub total : Entries → ℕ
total [] = 0
total ((k, e) ∷ l) = stored_size e + total l

-- The longest part of the list, from its front, that fits into a budget.
unfoldable pub fit : ℕ → Entries → Entries
fit budget [] = []
fit budget ((k, e) ∷ l) =
    if leb (stored_size e) budget then (k, e) ∷ fit (budget - stored_size e) l else []

-- What is left beside a new entry of the given size; nothing if the new entry exceeds the maximum.
unfoldable pub kept : ℕ → ℕ → Entries → Entries
kept max new_size l = if leb new_size max then fit (max - new_size) l else []

fit_all : (budget : ℕ) (l : Entries) → total l ≤ budget → fit budget l ≡ l
unfolding fit total
fit_all budget [] h = refl
fit_all budget ((k, e) ∷ l) h = ground (arith, fit_all (budget - stored_size e) l)

fit_last :
    (budget : ℕ) (x : Text × StoredEntry) (l : Entries)
    → budget < total (x ∷ l)
    → fit budget (x ∷ l) ≡ fit budget (init_of x l)
unfolding fit total
fit_last budget (k, e) [] h = ground arith
fit_last budget (k, e) (y ∷ l) h = ground (arith, fit_last (budget - stored_size e) y l)

pub total-last :
    (x : Text × StoredEntry) (l : Entries)
    → total (init_of x l) + stored_size (last_of x l).1 ≡ total (x ∷ l)
unfolding total
total-last x [] = omega arith
total-last (k, e) (y ∷ l) = omega (arith, total-last y l)

pub total-remove :
    (k : Text) (l : Entries) (e : StoredEntry)
    → lookup k l ≡ some e
    → total (remove k l) + stored_size e ≡ total l
unfolding total lookup remove
total-remove k [] e h = cc
total-remove k ((j, v) ∷ l) e h = ground (arith, total-remove k l e)

pub total-remove-none : (k : Text) (l : Entries) → lookup k l ≡ none → remove k l ≡ l
unfolding lookup remove
total-remove-none k [] h = refl
total-remove-none k ((j, v) ∷ l) h = ground (arith, total-remove-none k l)

pub kept_all : (max new_size : ℕ) (l : Entries) → total l + new_size ≤ max → kept max new_size l ≡ l
unfolding kept
kept_all max new_size l h = ground (arith, fit_all (max - new_size) l)

pub kept_last :
    (max new_size : ℕ) (l : Entries)
    → max < total l + new_size
    → kept max new_size l ≡ kept max new_size (without_last l)
unfolding kept total fit
kept_last max new_size [] h = refl
kept_last max new_size (x ∷ l) h = ground (arith, fit_last (max - new_size) x l)

pub kept-nil : (max new_size : ℕ) → kept max new_size [] ≡ []
unfolding kept fit
kept-nil max new_size = ground arith

total-fit : (budget : ℕ) (l : Entries) → total (fit budget l) ≤ budget
unfolding total fit
total-fit budget [] = omega arith
total-fit budget ((k, e) ∷ l) = ground (arith, total-fit (budget - stored_size e) l)

-- What is kept leaves room for the new entry.
pub total-kept :
    (max new_size : ℕ) (l : Entries) → new_size ≤ max → total (kept max new_size l) + new_size ≤ max
unfolding kept
total-kept max new_size l h = ground (arith, total-fit (max - new_size) l)

pub kept_over : (max new_size : ℕ) (l : Entries) → max < new_size → kept max new_size l ≡ []
unfolding kept
kept_over max new_size l h = ground arith
