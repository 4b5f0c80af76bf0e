-- ===== src/Run/Setup.antt =====
-- The method, the URL, the credentials, and all that is set after the body.
use trequests.Auth.{RequestAuth}
use trequests.Base.{
  ℕ, ℤ, pos, negsuc, minus_one, int_eq, Bool, not, List, [], ◌∷◌, ◌++◌, Option, none, some, Bytes,
  codes, ◌==◌, if◌then◌else◌, is_some,
}
use trequests.Create.{no_scheme}
use trequests.Request.Settings.{Method, Settings}
use trequests.Run.{
  Setting, Progress, going, stopped, Curl, safe_setopt, safe_setopt_if, httpget, nobody, curlu,
  customrequest, url, query, username, password, xoauth2_bearer, aws_sigv4, httpauth,
  followlocation, verbose, httpheader, connecttimeout_ms, timeout_ms, ssl_verifyhost,
  ssl_verifypeer, ssl_verifystatus,
}

abbrev pub text_of : Option Bytes → Bytes
text_of none = []
text_of (some t) = t

-- An int that is not 0.
abbrev pub is_true : ℤ → Bool
is_true z = not (int_eq z (pos 0))

-- 0L or 2L.
abbrev pub verifyhost_of : Bool → Setting
verifyhost_of b = ssl_verifyhost (if b then 2 else 0)

module _ (c : Curl) where
  -- The switch over the methods.
  unfoldable pub set_method : Method → Option Bytes → Progress → Progress
  unfolding safe_setopt
  set_method Method.head name p = safe_setopt c nobody (safe_setopt c httpget p)
  set_method Method.get name p = safe_setopt c httpget p
  set_method Method.post name p = safe_setopt c Setting.post p
  set_method Method.put name p = safe_setopt c (customrequest (codes "PUT")) p
  set_method Method.patch name p = safe_setopt c (customrequest (codes "PATCH")) p
  set_method Method.delete name p = safe_setopt c (customrequest (codes "DELETE")) p
  set_method Method.custom name p = safe_setopt c (customrequest (text_of name)) p

  -- An empty query string is not set.
  unfoldable pub set_query : Option Bytes → Progress → Progress
  unfolding safe_setopt
  set_query none p = p
  set_query (some []) p = p
  set_query (some (q ∷ qs)) p = safe_setopt c (query (q ∷ qs)) p

  unfoldable pub set_url : Settings → Progress → Progress
  unfolding safe_setopt set_query
  set_url q p = safe_setopt c curlu (set_query q.querystring (safe_setopt c (url q.url) p))

  -- The scheme; a token alone is sent as a bearer token.
  unfoldable pub set_scheme : RequestAuth → Progress → Progress
  unfolding safe_setopt
  set_scheme a p =
      if not (a.scheme == no_scheme)
      then safe_setopt c (httpauth a.scheme) p
      else if is_some a.token
      then safe_setopt c (httpauth c.bearer_only) p
      else p

  unfoldable pub set_auth : Option RequestAuth → Progress → Progress
  unfolding safe_setopt_if set_scheme
  set_auth none p = p
  set_auth (some a) p = set_scheme a (
      safe_setopt_if c a.aws_sigv4_value aws_sigv4 (
        safe_setopt_if c a.token xoauth2_bearer
          (safe_setopt_if c a.password password (safe_setopt_if c a.username username p))))

  unfoldable pub set_flags : Settings → Progress → Progress
  unfolding safe_setopt
  set_flags q p =
      safe_setopt c (verbose (is_true q.verbose))
        (safe_setopt c (followlocation (is_true q.allow_redirects)) p)

  -- `req->curl_headers = curl_slist_append(...)`, with NULL as the empty list.
  unfoldable pub append_header : Option Bytes → List Bytes → List Bytes
  append_header none headers = headers
  append_header (some h) headers = elim (c.slist_append headers h) [ none ↦ [] | some hs ↦ hs ]

  -- The loop over the dictionary of the headers; `none` is a list that could not be made longer.
  unfoldable pub add_headers : List Bytes → List (Bytes × Bytes) → Option (List Bytes)
  add_headers headers [] = some headers
  add_headers headers ((key, value) ∷ es) =
      elim (c.slist_append headers (key ++ (codes ": " ++ value))) [
        | none ↦ none
        | some hs ↦ add_headers hs es
      ]

  -- `if (req->curl_headers != NULL)`
  unfoldable pub set_headers : Option (List Bytes) → Progress → Progress
  unfolding safe_setopt
  set_headers headers (stopped made message) = stopped made message
  set_headers none (going made) = stopped made (codes "failed to add headers")
  set_headers (some []) (going made) = going made
  set_headers (some (h ∷ hs)) (going made) = safe_setopt c (httpheader (h ∷ hs)) (going made)

  -- A timeout of at least 0.
  unfoldable pub set_timeout : ℤ → (ℕ → Setting) → Progress → Progress
  unfolding safe_setopt
  set_timeout (pos t) f p = safe_setopt c (f t) p
  set_timeout (negsuc t) f p = p

  -- A flag that is not -1.
  unfoldable pub set_verify : ℤ → (Bool → Setting) → Progress → Progress
  unfolding safe_setopt
  set_verify z f p = if int_eq z minus_one then p else safe_setopt c (f (is_true z)) p

  unfoldable pub set_limits : Settings → Progress → Progress
  unfolding set_timeout set_verify
  set_limits q p = set_verify q.verify_status ssl_verifystatus (
      set_verify q.verify_peer ssl_verifypeer (
        set_verify q.verify_host verifyhost_of
          (set_timeout q.timeout timeout_ms (set_timeout q.timeout_connect connecttimeout_ms p))))
