-- ===== src/Conditional/Transparent.antt =====
-- A response that no validator matches.
use sfpg_go.Base.{
  ℕ, ◌≡◌, ◌≢◌, refl, sym, ap, ◌∙◌, Bool, true, false, ◌&&◌, List, [], ◌∷◌, ◌++◌, Option, none, some,
  ◌==◌, if◌then◌else◌, if_split, arith,
}
use sfpg_go.Base.Int.{ℤ}
use sfpg_go.Base.Text.{Str}
use sfpg_go.Conditional.{
  Name, set_header, Call, sets, writes_header, writes, ConditionalResponseWriter, Response,
  get_method, Request, status_ok, new_conditional_response_writer, write_header, write, buffer,
  serve, received, nothing_sent, settled, write_not_modified, is_head, write_normal, passes_through,
  is_not_modified, finalize, conditional_middleware,
}

-- No header is set after the first write.
unfoldable pub IsOrderly : Bool → List Call → Type 0
IsOrderly written [] = Unit
IsOrderly written (sets n v ∷ cs) = (written ≡ false) × IsOrderly written cs
IsOrderly written (writes_header code ∷ cs) = IsOrderly true cs
IsOrderly written (writes p ∷ cs) = IsOrderly true cs

abbrev normal : ConditionalResponseWriter → Response
normal w = record { status = w.status_code; headers = w.header; content = w.body }

written_same :
    (cs : List Call) (h : List (Name × Str)) (code : ℕ) (b : List ℕ)
    → IsOrderly true cs
    → received (serve cs (record { live = h; sent = some (code, h); out = b }))
      ≡ normal (
          settled
            (buffer cs (record { header = h; body = b; status_code = code; wrote_header = true })))
unfolding IsOrderly serve buffer received write write_header
written_same [] h code b o = refl
written_same (sets n v ∷ cs) h code b (o, os) = absurd (contrary o)
  where
    contrary : true ≢ false
    contrary e = ground arith
written_same (writes_header c ∷ cs) h code b o = written_same cs h code b o
written_same (writes p ∷ cs) h code b o = written_same cs h code (b ++ p) o

unwritten_same :
    (cs : List Call) (h : List (Name × Str))
    → IsOrderly false cs
    → received (serve cs (record { live = h; sent = none; out = [] }))
      ≡ normal (
          settled (
            buffer cs
              (record { header = h; body = []; status_code = status_ok; wrote_header = false })))
unfolding IsOrderly serve buffer received write write_header
unwritten_same [] h o = refl
unwritten_same (sets n v ∷ cs) h (o, os) = unwritten_same cs (set_header n v h) os
unwritten_same (writes_header c ∷ cs) h o = written_same cs h c [] o
unwritten_same (writes p ∷ cs) h o = written_same cs h status_ok p o

-- A GET whose response no validator matches is answered as without the middleware, if the handler
-- sets no header after its first write.
pub conditional_middleware_transparent :
    (parse_time : Str → Option ℤ) (handler : List Call) (r : Request)
    → let w = settled (buffer handler new_conditional_response_writer) in
      r.method ≡ get_method
      → IsOrderly false handler
      → ((w.status_code == status_ok) && is_not_modified parse_time r w) ≡ false
      → conditional_middleware parse_time handler r ≡ received (serve handler nothing_sent)
unfolding conditional_middleware finalize new_conditional_response_writer write_normal
conditional_middleware_transparent parse_time handler r m o h =
    let w = settled (buffer handler new_conditional_response_writer) in
    let target = received (serve handler nothing_sent) in
    if_split (λ x. x ≡ target) (passes_through r) (λ e. refl)
      (λ e.
        ap (λ b. if b then write_not_modified w else write_normal r w) h
        ∙ ap
            (λ b. record {
              status = w.status_code;
              headers = w.header;
              content = if b then [] else w.body;
            })
            (ap is_head m)
        ∙ sym (unwritten_same handler [] o))
