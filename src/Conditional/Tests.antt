-- ===== src/Conditional/Tests.antt =====
-- Concrete requests.
use sfpg_go.Base.{ℕ, Bool, ◌↔◌, ◌≡◌, ◌&&◌, true, false, refl, List, [], ◌∷◌, Option, none, ◌==◌}
use sfpg_go.Base.Int.{ℤ}
use sfpg_go.Base.Text.{Str, same, is_space}
use sfpg_go.Conditional.{
  e_tag, content_type, Call, sets, writes, Request, get_method, serve, received, nothing_sent,
  settled, buffer, new_conditional_response_writer, is_not_modified, conditional_middleware,
}
use sfpg_go.Conditional.Etag.{matches_etag}
use sfpg_go.Conditional.Etags.{
  join, HasNoComma, Tag, text, texts, IsTag, AreTags, HasValue, matches_etag-HasValue,
}
use sfpg_go.Conditional.Trim.{AllSpace}
use sfpg_go.Conditional.Transparent.{IsOrderly, conditional_middleware_transparent}
use sfpg_go.Conditional.NotModified.{Answered, conditional_middleware-Answered}

-- The tags a and W/b, and a space before the second.
abbrev tag_a : Str
tag_a = 97 ∷ []

abbrev tag_b : Str
tag_b = 32 ∷ 87 ∷ 47 ∷ 98 ∷ []

abbrev tag : Bool → ℕ → Tag
tag weak c = record { lead = []; weak = weak; value = c ∷ []; trail = [] }

abbrev spaced : Tag
spaced = record { lead = 32 ∷ []; weak = true; value = 98 ∷ []; trail = 32 ∷ [] }

tags-AreTags : AreTags (tag false 97 ∷ spaced ∷ [])
unfolding AreTags AllSpace HasNoComma is_space
tags-AreTags = (
  (tt, tt, (refl, (refl, (refl, tt)))),
  (((refl, tt), (refl, tt), (refl, (refl, (refl, (refl, (refl, (refl, (refl, tt)))))))), tt),
)

b-IsTag : IsTag (tag false 98)
unfolding AllSpace HasNoComma
b-IsTag = (tt, tt, (refl, (refl, (refl, tt))))

matches_etag-HasValue_example :
    (matches_etag (join (text (tag false 97)) (texts (spaced ∷ []))) (text (tag false 98)) ≡ true)
    ↔ HasValue (98 ∷ []) (tag false 97 ∷ spaced ∷ [])
matches_etag-HasValue_example =
    matches_etag-HasValue (tag false 97) (spaced ∷ []) (tag false 98) tags-AreTags b-IsTag

weak_matches : matches_etag (join tag_a (tag_b ∷ [])) (98 ∷ []) ≡ true
unfolding matches_etag same
weak_matches = refl

abbrev no_time : Str → Option ℤ
no_time s = none

abbrev page : List Call
page = sets e_tag tag_a ∷ sets content_type (116 ∷ []) ∷ writes (60 ∷ []) ∷ []

abbrev asks_a : Request
asks_a = record { method = get_method; if_none_match = tag_a; if_modified_since = [] }

abbrev asks_c : Request
asks_c = record { method = get_method; if_none_match = 99 ∷ []; if_modified_since = [] }

page-IsOrderly : IsOrderly false page
unfolding IsOrderly
page-IsOrderly = (refl, (refl, tt))

no_match :
    ((settled (buffer page new_conditional_response_writer)).status_code == 200)
      && is_not_modified no_time asks_c (settled (buffer page new_conditional_response_writer))
    ≡ false
unfolding buffer new_conditional_response_writer is_not_modified matches_etag same
no_match = refl

conditional_middleware_transparent_example :
    conditional_middleware no_time page asks_c ≡ received (serve page nothing_sent)
conditional_middleware_transparent_example =
    conditional_middleware_transparent no_time page asks_c refl page-IsOrderly no_match

conditional_middleware-Answered_example :
    Answered no_time asks_a
      (settled (buffer page new_conditional_response_writer))
      (conditional_middleware no_time page asks_a)
conditional_middleware-Answered_example = conditional_middleware-Answered no_time page asks_a refl

not_modified : (conditional_middleware no_time page asks_a).status ≡ 304
unfolding conditional_middleware matches_etag same
not_modified = refl
