-- ===== src/Script/Getters.antt =====
-- The switch of `treq_RequestHandleCmd`, where it has no fault.
use trequests.Base.{ℕ, true, Option, none, some, Bytes, ◌≡◌, refl, arith, is_some}
use trequests.Launch.Replies.{Reads, get_text-some}
use trequests.Launch.{Site}
use trequests.Request.Memory.{Request, Memory, Leaves}
use trequests.Response.{
  Encodings, Response, get_encoding, set_encoding, has_encoding, update_encoding,
  update_content_type,
}
use trequests.Response.Headers.{
  HandleCommand, cmd_header, cmd_text, cmd_content, cmd_error, cmd_headers, cmd_encoding,
  cmd_status_code, cmd_state, cmd_destroy,
}
use trequests.Script.{Front, Shown, GetterResult, encoding_result, getter, kept_by, run_getter}
use trequests.Script.Words.{has_word}

-- The parser does not fail, so the encoding is shown.
get_encoding-some :
    (t : Encodings) (header : Option Bytes) (q : Response t)
    → Reads t header
    → is_some (get_encoding t header q) ≡ true
unfolding get_encoding has_encoding update_encoding update_content_type
get_encoding-some t none q reads = ground arith
get_encoding-some t (some h) q reads = ground arith

module _ (site : Site) (front : Front) (r : ℕ)
    (readable : Reads site.encodings (front.content_type r)) where
  encoding_result-some :
      (name : Bytes) (f : Response site.encodings) (e : Option site.encodings.Encoding)
      → is_some (encoding_result site front r name f e) ≡ true
  unfolding encoding_result
  encoding_result-some name f none = refl
  encoding_result-some name f (some e) = ground (
    arith,
    get_encoding-some site.encodings (front.content_type r) (set_encoding site.encodings e f)
        readable,
  )

  -- Every getter answers.
  getter-some :
      (c : HandleCommand) (word : Option Bytes) (q : Request) (f : Response site.encodings)
      → has_word c word ≡ true
      → (c ≡ cmd_destroy → ⊥)
      → is_some (getter site front r c word q f) ≡ true
  unfolding getter
  getter-some cmd_text word q f worded other =
      ground (arith, get_text-some site.encodings (front.content_type r) f readable)
  getter-some cmd_content word q f worded other = refl
  getter-some cmd_error word q f worded other = refl
  getter-some cmd_headers word q f worded other = refl
  getter-some cmd_header none q f worded other = absurd (ground arith)
  getter-some cmd_header (some name) q f worded other = ground arith
  getter-some cmd_encoding none q f worded other =
      ground (arith, get_encoding-some site.encodings (front.content_type r) f readable)
  getter-some cmd_encoding (some name) q f worded other =
      encoding_result-some name f (site.encodings.find_encoding name)
  getter-some cmd_status_code word q f worded other = refl
  getter-some cmd_state word q f worded other = refl
  getter-some cmd_destroy word q f worded other = absurd (other refl)

  kept_by-Leaves :
      (s : Shown site front) (w : Memory) (P : Memory → Type 0) (o : GetterResult site front)
      → is_some o ≡ true
      → P w
      → Leaves (kept_by site front r s w o) P
  kept_by-Leaves s w P none there p = absurd (ground arith)
  kept_by-Leaves s w P (some x) there p = p

  run_getter-eq :
      (c : HandleCommand) (word : Option Bytes) (s : Shown site front) (w : Memory) (q : Request)
      → w.requests r ≡ some q
      → run_getter site front r c word s w
        ≡ kept_by site front r s w
            (getter site front r c word q (record (s r) { content = q.content }))
  unfolding run_getter
  run_getter-eq c word s w q hq = ground arith

  -- A getter leaves the memory as it was.
  pub run_getter-Leaves :
      (c : HandleCommand) (word : Option Bytes) (s : Shown site front) (w : Memory) (q : Request)
      → w.requests r ≡ some q
      → has_word c word ≡ true
      → (c ≡ cmd_destroy → ⊥)
      → (P : Memory → Type 0) → P w
      → Leaves (run_getter site front r c word s w) P
  run_getter-Leaves c word s w q hq worded other P p =
      let f = record (s r) { content = q.content } in
      rw (run_getter-eq c word s w q hq) (
        kept_by-Leaves s w P (getter site front r c word q f) (getter-some c word q f worded other)
          p)
