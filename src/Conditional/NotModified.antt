-- ===== src/Conditional/NotModified.antt =====
-- The 304 response.
use sfpg_go.Base.{
  ◌≢◌, ◌⊎◌, inl, inr, Bool, ◌||◌, not, none, some, ==_iff, ◌≡◌, refl, true, false, ◌&&◌, List, [],
  ◌∷◌, Option, ◌==◌, if◌then◌else◌, if_split, arith,
}
use sfpg_go.Base.Int.{ℤ, pos, ◌≤ℤ◌, +ℤ_parts}
use sfpg_go.Conditional.Etag.{matches_etag}
use sfpg_go.Base.Text.{Str}
use sfpg_go.Conditional.{
  ConditionalResponseWriter, e_tag, last_modified, content_length, content_type, content_encoding,
  content_range, other, is_empty, is_head, both_times, matches_last_modified, Name, same_name, get,
  Call, Response, Request, status_ok, new_conditional_response_writer, buffer, settled, is_content,
  without_content, write_not_modified, write_normal, passes_through, is_not_modified, finalize,
  conditional_middleware,
}

same_name-is_content : (m n : Name) → same_name m n ≡ true → is_content m ≡ is_content n
same_name-is_content m n h = ground arith

get-without_content :
    (n : Name) (h : List (Name × Str))
    → get n (without_content h) ≡ (if is_content n then [] else get n h)
unfolding get without_content
get-without_content n [] = ground arith
get-without_content n ((m, v) ∷ h) =
    let ih = get-without_content n h in
    let c = same_name-is_content m n in
    if_split
      (λ (l : List (Name × Str)).
        get n l ≡ (if is_content n then [] else if same_name m n then v else get n h))
      (is_content m) (λ e. ground arith) (λ e. ground arith)

-- A validator of the request that the buffered response matches: its ETag, or a time that is not before the
-- last modification.
abbrev pub Matches : (Str → Option ℤ) → Request → ConditionalResponseWriter → Type 0
Matches parse_time r w =
    (r.if_none_match ≢ [])
      × (get e_tag w.header ≢ [])
      × (matches_etag r.if_none_match (get e_tag w.header) ≡ true)
    ⊎ (r.if_modified_since ≢ [])
      × (get last_modified w.header ≢ [])
      × (l : ℤ) × (i : ℤ) × (parse_time (get last_modified w.header) ≡ some l)
      × (parse_time r.if_modified_since ≡ some i)
      × (l ≤ℤ i)

-- The headers of a 304: what describes a body is gone, the rest is there.
abbrev pub KeepsValidators : List (Name × Str) → List (Name × Str) → Type 0
KeepsValidators h h' =
    (get content_length h' ≡ [])
    × (get content_type h' ≡ [])
    × (get content_encoding h' ≡ [])
    × (get content_range h' ≡ [])
    × (get e_tag h' ≡ get e_tag h)
    × (get last_modified h' ≡ get last_modified h)
    × ((s : Str) → get (other s) h' ≡ get (other s) h)

not_empty : (s : Str) → is_empty s ≡ false → s ≢ []
not_empty [] h e = ground arith
not_empty (c ∷ cs) h e = ground arith

is_full : (s : Str) → s ≢ [] → is_empty s ≡ false
is_full [] h = absurd (h refl)
is_full (c ∷ cs) h = refl

times_sound :
    (a b : Option ℤ)
    → both_times a b ≡ true
    → (l : ℤ) × (i : ℤ) × (a ≡ some l) × (b ≡ some i) × (l ≤ℤ i)
unfolding matches_last_modified
times_sound (some l) (some i) h = (l, i, refl, refl, ground (arith, +ℤ_parts i (pos 1)))
times_sound none b h = cc
times_sound (some l) none h = cc

times_complete :
    (a b : Option ℤ) (l i : ℤ) → a ≡ some l → b ≡ some i → l ≤ℤ i → both_times a b ≡ true
unfolding matches_last_modified
times_complete a b l i e f h = rw (e, f) (ground (arith, +ℤ_parts i (pos 1), h))

split_and : (a b c : Bool) → (a && b && c) ≡ true → (a ≡ true) × (b ≡ true) × (c ≡ true)
split_and a b c h = (ground arith, ground arith, ground arith)

un_not : (b : Bool) → not b ≡ true → b ≡ false
un_not b h = ground arith

either : (a b : Bool) → (a || b) ≡ true → (a ≡ true) ⊎ (b ≡ true)
either true b h = inl refl
either false b h = inr h

is_not_modified-Matches :
    (parse_time : Str → Option ℤ) (r : Request) (w : ConditionalResponseWriter)
    → is_not_modified parse_time r w ≡ true
    → Matches parse_time r w
unfolding is_not_modified
is_not_modified-Matches parse_time r w h = elim (either _ _ h) [
  | inl tag ↦
      let (a, b, c) = split_and _ _ _ tag in
      inl (not_empty r.if_none_match (un_not _ a), not_empty (get e_tag w.header) (un_not _ b), c)
  | inr time ↦
      let (a, b, c) = split_and _ _ _ time in
      let (l, i, e, f, h) =
        times_sound (parse_time (get last_modified w.header)) (parse_time r.if_modified_since) c in
      inr (
        not_empty r.if_modified_since (un_not _ a),
        not_empty (get last_modified w.header) (un_not _ b),
        l,
        i,
        e,
        f,
        h,
      )
]

Matches-is_not_modified :
    (parse_time : Str → Option ℤ) (r : Request) (w : ConditionalResponseWriter)
    → Matches parse_time r w
    → is_not_modified parse_time r w ≡ true
unfolding is_not_modified
Matches-is_not_modified parse_time r w (inl (a, b, c)) =
    rw (is_full r.if_none_match a, is_full (get e_tag w.header) b, c) refl
Matches-is_not_modified parse_time r w (inr (a, b, l, i, e, f, h)) =
    or_true
      (not (is_empty r.if_none_match)
        && not (is_empty (get e_tag w.header))
        && matches_etag r.if_none_match (get e_tag w.header))
      (rw (is_full r.if_modified_since a, is_full (get last_modified w.header) b)
        (times_complete (parse_time (get last_modified w.header)) (parse_time r.if_modified_since) l
          i e f h))
  where
    or_true : (x : Bool) {y : Bool} → y ≡ true → (x || y) ≡ true
    or_true x {y} e = ground arith

-- The two answers of the middleware to a request that it looks at.
abbrev pub Answered : (Str → Option ℤ) → Request → ConditionalResponseWriter → Response → Type 0
Answered parse_time r w response =
    ((w.status_code ≡ 200) × Matches parse_time r w)
      × (response.status ≡ 304)
      × (response.content ≡ [])
      × KeepsValidators w.header response.headers
    ⊎ ((w.status_code ≡ 200) × Matches parse_time r w → ⊥)
      × (response.status ≡ w.status_code)
      × (response.headers ≡ w.header)
      × (response.content ≡ (if is_head r.method then [] else w.body))

finalize-Answered :
    (parse_time : Str → Option ℤ) (r : Request) (w : ConditionalResponseWriter)
    → Answered parse_time r (settled w) (finalize parse_time r w)
unfolding finalize write_not_modified write_normal
finalize-Answered parse_time r w =
    let s = settled w in
    if_split (Answered parse_time r s)
      ((s.status_code == status_ok) && is_not_modified parse_time r s)
      (λ h.
        let (a, b) = both_true _ _ h in
        inl (
          ((==_iff s.status_code 200).0 a, is_not_modified-Matches parse_time r s b),
          refl,
          refl,
          (
            get-without_content content_length s.header,
            get-without_content content_type s.header,
            get-without_content content_encoding s.header,
            get-without_content content_range s.header,
            get-without_content e_tag s.header,
            get-without_content last_modified s.header,
            λ n. get-without_content (other n) s.header,
          ),
        ))
      (λ h. inr (
        (λ m.
            clash (s.status_code == status_ok) (is_not_modified parse_time r s) h
              ((==_iff s.status_code 200).1 m.0) (Matches-is_not_modified parse_time r s m.1)),
        refl,
        refl,
        refl,
      ))
  where
    both_true : (a b : Bool) → (a && b) ≡ true → (a ≡ true) × (b ≡ true)
    both_true a b e = (ground arith, ground arith)

    clash : (a b : Bool) → (a && b) ≡ false → a ≡ true → b ≡ true → ⊥
    clash a b e f g = ground arith

-- A GET with a validator, or a HEAD, is answered by what the handler buffered. If its status is 200 and it
-- matches a validator of the request, the answer is a 304 without a body, without Content-Length, Content-Type,
-- Content-Encoding and Content-Range and with all other headers; a validator is matched by an ETag that
-- If-None-Match has, or by a last modification that is not after If-Modified-Since. Otherwise the answer has
-- the status, the headers and, but for HEAD, the body as buffered.
pub conditional_middleware-Answered :
    (parse_time : Str → Option ℤ) (handler : List Call) (r : Request)
    → passes_through r ≡ false
    → Answered parse_time r
        (settled (buffer handler new_conditional_response_writer))
        (conditional_middleware parse_time handler r)
unfolding conditional_middleware
conditional_middleware-Answered parse_time handler r p =
    rw p (finalize-Answered parse_time r (buffer handler new_conditional_response_writer))
