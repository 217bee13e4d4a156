-- ===== src/HttpCache/Rows.antt =====
-- internal/cachelite/cache.go: the identifiers of the rows, and their order for EvictLRU.
use sfpg_go.Base.{
  ℕ, zero, suc, ◌≤◌, ◌<◌, ◌≡◌, ◌≢◌, refl, ◌∙◌, List, [], ◌∷◌, Option, none, some, take, ◌==◌,
  ==_iff, if◌then◌else◌, if_split, arith,
}
use sfpg_go.Base.Int.{leb_ℤ}
use sfpg_go.HttpCache.Table.{HttpCacheEntry, delete_by_id}
use sfpg_go.HttpCache.Size.{insert_created, sort_created}

-- The identifiers fall along the rows and are below a bound.
unfoldable pub Below : ℕ → List HttpCacheEntry → Type 0
Below n [] = Unit
Below n (e ∷ es) = (e.id < n) × Below e.id es

unfoldable pub All {ℓ} : (HttpCacheEntry → Type ℓ) → List HttpCacheEntry → Type ℓ
All P [] = Unit
All P (e ∷ es) = P e × All P es

pub All-take {ℓ} :
    (P : HttpCacheEntry → Type ℓ) (n : ℕ) (es : List HttpCacheEntry) → All P es → All P (take n es)
unfolding All
All-take P zero es h = tt
All-take P (suc n) [] h = tt
All-take P (suc n) (e ∷ es) h = (h.0, All-take P n es h.1)

All-insert_created {ℓ} :
    (P : HttpCacheEntry → Type ℓ) (e : HttpCacheEntry) (es : List HttpCacheEntry)
    → P e
    → All P es
    → All P (insert_created e es)
unfolding All insert_created
All-insert_created P e [] p h = (p, tt)
All-insert_created P e (f ∷ fs) p h =
    if_split (All P) (leb_ℤ e.created_at f.created_at) (λ _. (p, (h.0, h.1)))
      (λ _. (h.0, All-insert_created P e fs p h.1))

pub All-sort_created {ℓ} :
    (P : HttpCacheEntry → Type ℓ) (es : List HttpCacheEntry) → All P es → All P (sort_created es)
unfolding All sort_created
All-sort_created P [] h = tt
All-sort_created P (e ∷ es) h =
    All-insert_created P e (sort_created es) h.0 (All-sort_created P es h.1)

abbrev Apart : HttpCacheEntry → HttpCacheEntry → Type 0
Apart e f = (e.id ≢ f.id) × (f.id ≢ e.id)

unfoldable pub Distinct : List HttpCacheEntry → Type 0
Distinct [] = Unit
Distinct (e ∷ es) = All (Apart e) es × Distinct es

Distinct-insert_created :
    (e : HttpCacheEntry) (es : List HttpCacheEntry)
    → All (Apart e) es
    → Distinct es
    → Distinct (insert_created e es)
unfolding Distinct insert_created All
Distinct-insert_created e [] a d = (tt, tt)
Distinct-insert_created e (f ∷ fs) a d =
    if_split Distinct (leb_ℤ e.created_at f.created_at) (λ _. (a, d))
      (λ _. (
        All-insert_created (Apart f) e fs (a.0.1, a.0.0) d.0,
        Distinct-insert_created e fs a.1 d.1,
      ))

pub Distinct-sort_created : (es : List HttpCacheEntry) → Distinct es → Distinct (sort_created es)
unfolding Distinct sort_created
Distinct-sort_created [] d = tt
Distinct-sort_created (e ∷ es) d =
    Distinct-insert_created e (sort_created es) (All-sort_created (Apart e) es d.0)
      (Distinct-sort_created es d.1)

pub Distinct-take : (n : ℕ) (es : List HttpCacheEntry) → Distinct es → Distinct (take n es)
unfolding Distinct
Distinct-take zero es d = tt
Distinct-take (suc n) [] d = tt
Distinct-take (suc n) (e ∷ es) d = (All-take (Apart e) n es d.0, Distinct-take n es d.1)

Below-Apart :
    (e : HttpCacheEntry) (n : ℕ) (es : List HttpCacheEntry)
    → n ≤ e.id
    → Below n es
    → All (Apart e) es
unfolding Below All
Below-Apart e n [] h b = tt
Below-Apart e n (f ∷ fs) h b = ((omega arith, omega arith), Below-Apart e f.id fs (omega arith) b.1)

pub Below-Distinct : (n : ℕ) (es : List HttpCacheEntry) → Below n es → Distinct es
unfolding Below Distinct
Below-Distinct n [] b = tt
Below-Distinct n (e ∷ es) b = (Below-Apart e e.id es (omega arith) b.1, Below-Distinct e.id es b.1)

-- The row of an identifier.
unfoldable pub find_id : ℕ → List HttpCacheEntry → Option HttpCacheEntry
find_id id [] = none
find_id id (e ∷ es) = if e.id == id then some e else find_id id es

abbrev pub IsRow : List HttpCacheEntry → HttpCacheEntry → Type 0
IsRow rows e = find_id e.id rows ≡ some e

find_id-delete :
    (id k : ℕ) (rows : List HttpCacheEntry)
    → id ≢ k
    → find_id id (delete_by_id k rows) ≡ find_id id rows
unfolding find_id delete_by_id
find_id-delete id k [] h = refl
find_id-delete id k (e ∷ es) h = ground (arith, find_id-delete id k es h)

pub IsRow-delete :
    (o : HttpCacheEntry) (os rows : List HttpCacheEntry)
    → All (Apart o) os
    → All (IsRow rows) os
    → All (IsRow (delete_by_id o.id rows)) os
unfolding All
IsRow-delete o [] rows a h = tt
IsRow-delete o (e ∷ os) rows a h =
    (find_id-delete e.id o.id rows a.0.1 ∙ h.0, IsRow-delete o os rows a.1 h.1)

pub find_id-Below :
    (n id : ℕ) (rows : List HttpCacheEntry) → Below n rows → n ≤ id → find_id id rows ≡ none
unfolding find_id Below
find_id-Below n id [] b h = refl
find_id-Below n id (e ∷ es) b h = ground (arith, find_id-Below e.id id es b.1)

find_id_self : (e : HttpCacheEntry) (es : List HttpCacheEntry) → find_id e.id (e ∷ es) ≡ some e
unfolding find_id
find_id_self e es = rw ((==_iff e.id e.id).1 refl)

-- Every row is the row of its identifier.
IsRow-more :
    (e : HttpCacheEntry) (fs rows : List HttpCacheEntry)
    → All (Apart e) fs
    → All (IsRow rows) fs
    → All (IsRow (e ∷ rows)) fs
unfolding All find_id
IsRow-more e [] rows a h = tt
IsRow-more e (f ∷ fs) rows a h = (
  if_split (λ x. x ≡ some f) (e.id == f.id) (λ same. absurd (a.0.0 ((==_iff _ _).0 same)))
      (λ _. h.0),
  IsRow-more e fs rows a.1 h.1,
)

pub Below-IsRow : (n : ℕ) (rows : List HttpCacheEntry) → Below n rows → All (IsRow rows) rows
unfolding Below All
Below-IsRow n [] b = tt
Below-IsRow n (e ∷ es) b = (
  find_id_self e es,
  IsRow-more e es es (Below-Apart e e.id es (omega arith) b.1) (Below-IsRow e.id es b.1),
)
