-- ===== src/HttpCache/Headers.antt =====
-- internal/cachelite/http_cache_middleware.go: the headers of a hit.
use sfpg_go.Base.{
  ◌≡◌, refl, sym, ap, ◌∙◌, subst, true, false, List, [], ◌∷◌, Option, none, some, if◌then◌else◌,
  Bool-cases, inl, inr, arith,
}
use sfpg_go.Base.Text.{Str, same, same_refl, same_eq, codes}
use sfpg_go.Conditional.{
  Name, e_tag, last_modified, content_type, other, same_name, get, remove, set_header,
}
use sfpg_go.HttpCache.Middleware.{set_valid, null_string}
use sfpg_go.HttpCache.Writer.{cache_control, vary, x_cache}

same_name-eq : (m n : Name) → same_name m n ≡ true → m ≡ n
same_name-eq (other s) (other t) h = ap other (same_eq s t h)
same_name-eq e_tag n h = ground arith
same_name-eq m n h = ground arith

same_name_refl : (n : Name) → same_name n n ≡ true
same_name_refl (other s) = same_refl s
same_name_refl e_tag = refl
same_name_refl n = refl

get-remove :
    (n m : Name) (h : List (Name × Str)) → same_name m n ≡ false → get n (remove m h) ≡ get n h
unfolding get remove
get-remove n m [] e = refl
get-remove n m ((k, v) ∷ h) e = elim (Bool-cases (same_name k m)) [
  | inl is ↦
      let k_n : same_name k n ≡ false =
        subst (λ x. same_name x n ≡ false) (sym (same_name-eq k m is)) e in
      rw (is, k_n) (get-remove n m h e)
  | inr isnt ↦ rw isnt (ap (λ x. if same_name k n then v else x) (get-remove n m h e))
]

pub get-set_header_self :
    (n : Name) (v : Str) (h : List (Name × Str)) → get n (set_header n v h) ≡ v
unfolding get set_header
get-set_header_self n v h = rw (same_name_refl n)

get-set_header_ne :
    (n m : Name) (v : Str) (h : List (Name × Str))
    → same_name m n ≡ false
    → get n (set_header m v h) ≡ get n h
unfolding get set_header
get-set_header_ne n m v h e = rw e (get-remove n m h e)

get-set_valid_ne :
    (n m : Name) (o : Option Str) (h : List (Name × Str))
    → same_name m n ≡ false
    → get n (set_valid m o h) ≡ get n h
get-set_valid_ne n m none h e = refl
get-set_valid_ne n m (some v) h e = get-set_header_ne n m v h e

-- A header that the entry has kept is sent again, and an empty one is not.
get-set_valid_self :
    (n : Name) (s : Str) (h : List (Name × Str))
    → get n h ≡ []
    → get n (set_valid n (null_string s) h) ≡ s
get-set_valid_self n [] h e = e
get-set_valid_self n (c ∷ cs) h e = get-set_header_self n (c ∷ cs) h

get-nil : (n : Name) → get n [] ≡ []
unfolding get
get-nil n = refl

-- The headers of a hit, by the five strings that the entry keeps.
module _ (t c g l v : Str) where
  abbrev pub hit_headers : List (Name × Str)
  hit_headers = set_header x_cache (codes "HIT") (
      set_valid vary (null_string v) (
        set_valid last_modified (null_string l) (
          set_valid e_tag (null_string g)
            (set_valid cache_control (null_string c) (set_valid content_type (null_string t) [])))))

  pub get-hit_type : get content_type hit_headers ≡ t
  get-hit_type =
      get-set_header_ne content_type x_cache _ _ refl
      ∙ get-set_valid_ne content_type vary _ _ refl
      ∙ get-set_valid_ne content_type last_modified _ _ refl
      ∙ get-set_valid_ne content_type e_tag _ _ refl
      ∙ get-set_valid_ne content_type cache_control _ _ refl
      ∙ get-set_valid_self content_type t [] (get-nil content_type)

  pub get-hit_control : get cache_control hit_headers ≡ c
  unfolding same
  get-hit_control =
      get-set_header_ne cache_control x_cache _ _ refl
      ∙ get-set_valid_ne cache_control vary _ _ refl
      ∙ get-set_valid_ne cache_control last_modified _ _ refl
      ∙ get-set_valid_ne cache_control e_tag _ _ refl
      ∙ get-set_valid_self cache_control c _ (
          get-set_valid_ne cache_control content_type (null_string t) [] refl
          ∙ get-nil cache_control)

  pub get-hit_tag : get e_tag hit_headers ≡ g
  get-hit_tag =
      get-set_header_ne e_tag x_cache _ _ refl
      ∙ get-set_valid_ne e_tag vary _ _ refl
      ∙ get-set_valid_ne e_tag last_modified _ _ refl
      ∙ get-set_valid_self e_tag g _ (
          get-set_valid_ne e_tag cache_control (null_string c) _ refl
          ∙ get-set_valid_ne e_tag content_type (null_string t) [] refl
          ∙ get-nil e_tag)

  pub get-hit_modified : get last_modified hit_headers ≡ l
  get-hit_modified =
      get-set_header_ne last_modified x_cache _ _ refl
      ∙ get-set_valid_ne last_modified vary _ _ refl
      ∙ get-set_valid_self last_modified l _ (
          get-set_valid_ne last_modified e_tag (null_string g) _ refl
          ∙ get-set_valid_ne last_modified cache_control (null_string c) _ refl
          ∙ get-set_valid_ne last_modified content_type (null_string t) [] refl
          ∙ get-nil last_modified)

  pub get-hit_vary : get vary hit_headers ≡ v
  unfolding same
  get-hit_vary =
      get-set_header_ne vary x_cache _ _ refl
      ∙ get-set_valid_self vary v _ (
          get-set_valid_ne vary last_modified (null_string l) _ refl
          ∙ get-set_valid_ne vary e_tag (null_string g) _ refl
          ∙ get-set_valid_ne vary cache_control (null_string c) _ refl
          ∙ get-set_valid_ne vary content_type (null_string t) [] refl
          ∙ get-nil vary)
