-- ===== src/Launch/Replies.antt =====
-- What the command answers, and the handle command of the request.
use trequests.Base.{
  ℕ, Bool, true, Option, none, some, Bytes, ◌≡◌, refl, arith, is_some, Option-cases, inl, inr,
}
use trequests.Destroy.Frame.{QueueInv-frame}
use trequests.Launch.{
  Site, text, error_text, response_with, handle, text_reply, state_reply, create_handle,
}
use trequests.Request.Callback.{get_error}
use trequests.Pool.Frame.{PoolInv-frame}
use trequests.Request.Memory.{Request, done, error, Memory, Leaves}
use trequests.Response.{
  Encodings, Response, get_text, has_encoding, update_encoding, update_content_type,
}
use trequests.Run.Start.Async.{with_request}
use trequests.Text.ContentType.{parse_content_type}
use trequests.Pool.Active.{ActiveInv-frame}
use trequests.Session.Owned.{SessionInv-frame}
use trequests.Thread.{ThreadInv, IsTidy-change, MayBecome}

-- The parser gets through the header, if there is one.
abbrev pub Reads : Encodings → Option Bytes → Type 0
Reads t none = Unit {0}
Reads t (some h) = is_some (parse_content_type t.strnequal h) ≡ true

abbrev pub IsReadable : Site → Type 0
IsReadable site = Reads site.encodings site.content_type

-- A request gets its handle command, or loses it.
abbrev pub with_command : Memory → ℕ → Request → Bool → Memory
with_command w r q b = with_request w r (record q { cmd_token = b })

pub with_command-ThreadInv :
    (w : Memory) (r : ℕ) (q : Request) (b : Bool)
    → ThreadInv w
    → w.requests r ≡ some q
    → ThreadInv (with_command w r q b)
with_command-ThreadInv w r q b inv hq = record {
  books = PoolInv-frame w (with_command w r q b) refl (λ x. ground arith) inv.books;
  queue = QueueInv-frame w (with_command w r q b) refl (omega arith) (λ x. ground arith) inv.queue;
  tidy =
      IsTidy-change w (with_command w r q b) r q (some (record q { cmd_token = b })) inv.tidy hq may
        (λ x. refl) (omega arith);
  sessions =
      SessionInv-frame w (with_command w r q b) (λ x. refl) (λ x. ground arith) (omega arith)
        inv.sessions;
  active = ActiveInv-frame w (with_command w r q b) refl refl inv.active;
}
  where
    may : MayBecome (some (record q { cmd_token = b }))
    may y e t = ground (arith, inv.tidy.idle r q hq)

-- The parser does not fail, so the body is shown.
pub get_text-some :
    (t : Encodings) (header : Option Bytes) (q : Response t)
    → Reads t header
    → is_some (get_text t header q) ≡ true
unfolding get_text has_encoding update_encoding update_content_type
get_text-some t none q reads = ground arith
get_text-some t (some h) q reads = ground arith

module _ (site : Site) where
  create_handle-eq :
      (w : Memory) (r : ℕ) (q : Request)
      → w.requests r ≡ some q
      → create_handle site r w ≡ some (handle r, with_command w r q true)
  unfolding create_handle
  create_handle-eq w r q hq = ground arith

  pub create_handle-ThreadInv :
      (w : Memory) (r : ℕ)
      → ThreadInv w
      → is_some (w.requests r) ≡ true
      → Leaves (create_handle site r w) ThreadInv
  create_handle-ThreadInv w r inv live = elim (Option-cases (w.requests r)) [
    | inl gone ↦ absurd (ground arith)
    | inr (q, hq) ↦ rw (create_handle-eq w r q hq) (with_command-ThreadInv w r q true inv hq)
  ]

  -- A transfer that is done shows its body.
  pub state_reply-done :
      (w : Memory) (q : Request)
      → IsReadable site
      → q.state ≡ done
      → (b : Bytes) × (state_reply site q w ≡ some (text b, w))
  unfolding state_reply text_reply
  state_reply-done w q readable over =
      elim (Option-cases
        (get_text site.encodings site.content_type (response_with site q.content))) [
          | inl failed ↦ absurd (
              ground (
                arith,
                get_text-some site.encodings site.content_type (response_with site q.content)
                    readable,
              ))
          | inr ((b, _), shown) ↦ (b, ground arith)
        ]

  pub state_reply-error :
      (w : Memory) (q : Request)
      → q.state ≡ error
      → state_reply site q w ≡ some (error_text (get_error q.error q.state q.curl_error), w)
  unfolding state_reply
  state_reply-error w q failed = ground arith
