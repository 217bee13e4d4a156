-- ===== src/Queue/Spec.antt =====
-- What a deque promises: a list of items, front first, with no buffer, index or counter.
use sfpg_go.Base.{
  Bool, true, ◌&&◌, ◌≡◌, refl, List, [], ◌∷◌, ◌++◌, Option, none, some, if◌then◌else◌, length,
}
use sfpg_go.Base.Int.{ℤ, pos, ltb_ℤ, leb_ℤ}
use sfpg_go.Queue.{
  Queue, ok, err, empty_queue, closed_queue, queue_full, slice, Op, adds_back, adds_front,
  removes_front, removes_back, peeks_front, peeks_back, clears, closes, broadcasts, Reply, status,
  item, nothing,
}

pub record Deque {ℓ} (A : Type ℓ) : Type ℓ where
  pub items : List A
  pub closed : Bool
  pub max_cap : ℤ

module _ {ℓ} {A : Type ℓ} where
  abbrev pub view : A → Queue A → Deque A
  view z q = record { items = slice z q; closed = q.closed; max_cap = q.max_cap }

  -- The last item and those before it.
  unfoldable pub split_last : List A → Option (List A × A)
  split_last [] = none
  split_last (x ∷ xs) = elim (split_last xs) [
    | none ↦ some ([], x)
    | some (ys, y) ↦ some (x ∷ ys, y)
  ]

  pub split_last-snoc : (xs : List A) (x : A) → split_last (xs ++ x ∷ []) ≡ some (xs, x)
  unfolding split_last
  split_last-snoc [] x = refl
  split_last-snoc (y ∷ xs) x = rw (split_last-snoc xs x)

  unfoldable pub spec_add : Deque A → List A → Reply A × Deque A
  spec_add d added =
      if d.closed
      then (status (err closed_queue), d)
      else if ltb_ℤ (pos 0) d.max_cap && leb_ℤ d.max_cap (pos (length d.items))
      then (status (err queue_full), d)
      else (status (ok tt), record d { items = added })

  unfoldable pub spec_take : Deque A → Option (A × List A) → Reply A × Deque A
  spec_take d none = (item (err empty_queue), d)
  spec_take d (some (x, rest)) =
      if d.closed then (item (err closed_queue), d) else (item (ok x), record d { items = rest })

  unfoldable pub front : List A → Option (A × List A)
  front [] = none
  front (x ∷ xs) = some (x, xs)

  unfoldable pub back : List A → Option (A × List A)
  back xs = elim (split_last xs) [ none ↦ none | some (ys, y) ↦ some (y, ys) ]

  pub back-snoc : (xs : List A) (x : A) → back (xs ++ x ∷ []) ≡ some (x, xs)
  unfolding back
  back-snoc xs x = rw (split_last-snoc xs x, back)

  unfoldable pub spec_step : Op A → Deque A → Reply A × Deque A
  unfolding spec_add spec_take
  spec_step (adds_back x) d = spec_add d (d.items ++ x ∷ [])
  spec_step (adds_front x) d = spec_add d (x ∷ d.items)
  spec_step removes_front d = spec_take d (front d.items)
  spec_step removes_back d = spec_take d (back d.items)
  spec_step peeks_front d = ((spec_take d (front d.items)).0, d)
  spec_step peeks_back d = ((spec_take d (back d.items)).0, d)
  spec_step clears d = (nothing, record d { items = [] })
  spec_step closes d = (nothing, record d { closed = true })
  spec_step broadcasts d = (nothing, d)

  unfoldable pub spec_run : List (Op A) → Deque A → List (Reply A)
  unfolding spec_step
  spec_run [] d = []
  spec_run (o ∷ os) d = let (r, d') = spec_step o d in r ∷ spec_run os d'
