-- ===== src/Conditional/Etag.antt =====
-- internal/server/conditional/match.go.
use sfpg_go.Base.{ℕ, Bool, true, false, ◌&&◌, ◌||◌, List, [], ◌∷◌, ◌==◌, if◌then◌else◌}
use sfpg_go.Base.Text.{Str, same, trim_space}

abbrev pub comma : ℕ
comma = 44

-- strings.TrimPrefix with "W/".
abbrev pub trim_weak : Str → Str
trim_weak [] = []
trim_weak (c ∷ []) = c ∷ []
trim_weak (c ∷ d ∷ s) = if (c == 87) && (d == 47) then s else c ∷ d ∷ s

unfoldable pub normalize_etag : Str → Str
unfolding trim_space
normalize_etag e = trim_weak (trim_space e)

abbrev pub onto_first : ℕ → List Str → List Str
onto_first c [] = (c ∷ []) ∷ []
onto_first c (s ∷ ss) = (c ∷ s) ∷ ss

-- strings.SplitSeq at the commas: one more piece than there are commas.
unfoldable pub split : Str → List Str
split [] = [] ∷ []
split (c ∷ s) = let rest = split s in if c == comma then [] ∷ rest else onto_first c rest

unfoldable pub any_same : Str → List Str → Bool
unfolding normalize_etag
any_same e [] = false
any_same e (v ∷ vs) = same (normalize_etag v) e || any_same e vs

unfoldable pub matches_etag : Str → Str → Bool
unfolding split any_same
matches_etag [] etag = false
matches_etag (c ∷ cs) etag =
    if same (c ∷ cs) (42 ∷ []) then true else any_same (normalize_etag etag) (split (c ∷ cs))
