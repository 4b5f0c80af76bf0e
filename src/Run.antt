-- ===== src/Run.antt =====
-- src/treqRequest.c, `treq_RequestRun`: what is set on the cURL handle and on the URL of a request,
-- in its order, and the start of the transfer.
pub mod Body
pub mod Setup
pub mod Start
use trequests.Base.{ℕ, Bool, true, false, List, [], ◌∷◌, ◌++◌, Option, none, some, Bytes, codes}
use trequests.Request.Settings.{Settings}

-- A call of `curl_easy_setopt` or of `curl_url_set`, with the value. A mime is the list of its
-- parts, and a flag of 0L or 1L is a Boolean.
pub data Setting : Type 0 where
  httpget nobody post curlu : Setting
  customrequest : Bytes → Setting
  url query : Bytes → Setting
  username password xoauth2_bearer aws_sigv4 : Bytes → Setting
  httpauth : ℕ → Setting
  mimepost : List (Bytes × Bytes) → Setting
  postfieldsize : ℕ → Setting
  postfields : Bytes → Setting
  followlocation verbose : Bool → Setting
  httpheader : List Bytes → Setting
  connecttimeout_ms timeout_ms : ℕ → Setting
  ssl_verifyhost : ℕ → Setting
  ssl_verifypeer ssl_verifystatus : Bool → Setting

-- `#opt` of the macros.
unfoldable pub setting_name : Setting → Bytes
setting_name httpget = codes "CURLOPT_HTTPGET"
setting_name nobody = codes "CURLOPT_NOBODY"
setting_name post = codes "CURLOPT_POST"
setting_name curlu = codes "CURLOPT_CURLU"
setting_name (customrequest v) = codes "CURLOPT_CUSTOMREQUEST"
setting_name (url v) = codes "CURLUPART_URL"
setting_name (query v) = codes "CURLUPART_QUERY"
setting_name (username v) = codes "CURLOPT_USERNAME"
setting_name (password v) = codes "CURLOPT_PASSWORD"
setting_name (xoauth2_bearer v) = codes "CURLOPT_XOAUTH2_BEARER"
setting_name (aws_sigv4 v) = codes "CURLOPT_AWS_SIGV4"
setting_name (httpauth v) = codes "CURLOPT_HTTPAUTH"
setting_name (mimepost v) = codes "CURLOPT_MIMEPOST"
setting_name (postfieldsize v) = codes "CURLOPT_POSTFIELDSIZE"
setting_name (postfields v) = codes "CURLOPT_POSTFIELDS"
setting_name (followlocation v) = codes "CURLOPT_FOLLOWLOCATION"
setting_name (verbose v) = codes "CURLOPT_VERBOSE"
setting_name (httpheader v) = codes "CURLOPT_HTTPHEADER"
setting_name (connecttimeout_ms v) = codes "CURLOPT_CONNECTTIMEOUT_MS"
setting_name (timeout_ms v) = codes "CURLOPT_TIMEOUT_MS"
setting_name (ssl_verifyhost v) = codes "CURLOPT_SSL_VERIFYHOST"
setting_name (ssl_verifypeer v) = codes "CURLOPT_SSL_VERIFYPEER"
setting_name (ssl_verifystatus v) = codes "CURLOPT_SSL_VERIFYSTATUS"

-- Which macro a setting goes by.
abbrev is_url_part : Setting → Bool
is_url_part (url v) = true
is_url_part (query v) = true
is_url_part _ = false

-- The message of the macros.
pub setting_message : Setting → Bytes → Bytes
unfolding setting_name
setting_message s reason =
    (elim (is_url_part s) [ true ↦ codes "curl_url_set(" | false ↦ codes "curl_easy_setopt(" ])
    ++ (setting_name s ++ (codes ") failed: " ++ reason))

-- How far the function is: the settings that are made, and the error message where it stopped.
pub data Progress : Type 0 where
  going : List Setting → Progress
  stopped : List Setting → Bytes → Progress

-- What libcurl does with the settings: the reason why one is refused after the earlier ones, and
-- a list of headers with one more, or NULL.
pub record Curl : Type 0 where
  pub setopt : List Setting → Setting → Option Bytes
  pub slist_append : List Bytes → Bytes → Option (List Bytes)
  -- CURLAUTH_BEARER | CURLAUTH_ONLY
  pub bearer_only : ℕ

module _ (c : Curl) where
  -- `safe_curl_easy_setopt` and `safe_curl_url_set`
  unfoldable pub safe_setopt : Setting → Progress → Progress
  unfolding setting_message
  safe_setopt s (going made) = elim (c.setopt made s) [
    | none ↦ going (made ++ s ∷ [])
    | some reason ↦ stopped made (setting_message s reason)
  ]
  safe_setopt s (stopped made message) = stopped made message

  -- A setting whose value may be NULL.
  unfoldable pub safe_setopt_if : Option Bytes → (Bytes → Setting) → Progress → Progress
  unfolding safe_setopt
  safe_setopt_if none f p = p
  safe_setopt_if (some v) f p = safe_setopt (f v) p
