-- ===== src/Run/Body/Asked.antt =====
-- What a request asks to be set, as one list.
use trequests.Auth.{RequestAuth}
use trequests.Base.{
  ℕ, ℤ, pos, negsuc, minus_one, int_eq, Bool, List, [], ◌∷◌, ◌++◌, Option, none, some, Bytes, codes,
  ◌==◌, if◌then◌else◌, length,
}
use trequests.Create.{no_scheme}
use trequests.Options.Dicts.{entries_of}
use trequests.Options.Platform.{Platform}
use trequests.Request.Settings.{Method, Settings}
use trequests.Run.Setup.{text_of, is_true, verifyhost_of}
use trequests.Run.{
  Setting, httpget, nobody, curlu, customrequest, url, query, username, password, xoauth2_bearer,
  aws_sigv4, httpauth, mimepost, postfieldsize, postfields, followlocation, verbose, httpheader,
  connecttimeout_ms, timeout_ms, ssl_verifypeer, ssl_verifystatus,
}

-- The settings that a method asks for.
abbrev pub method_settings : Method → Option Bytes → List Setting
method_settings Method.head name = httpget ∷ nobody ∷ []
method_settings Method.get name = httpget ∷ []
method_settings Method.post name = Setting.post ∷ []
method_settings Method.put name = customrequest (codes "PUT") ∷ []
method_settings Method.patch name = customrequest (codes "PATCH") ∷ []
method_settings Method.delete name = customrequest (codes "DELETE") ∷ []
method_settings Method.custom name = customrequest (text_of name) ∷ []

abbrev pub given : Option Bytes → (Bytes → Setting) → List Setting
given none f = []
given (some v) f = f v ∷ []

abbrev pub non_empty_query : Option Bytes → List Setting
non_empty_query none = []
non_empty_query (some []) = []
non_empty_query (some (q ∷ qs)) = query (q ∷ qs) ∷ []

abbrev pub url_settings : Settings → List Setting
url_settings q = url q.url ∷ non_empty_query q.querystring ++ curlu ∷ []

abbrev pub scheme_settings : ℕ → RequestAuth → List Setting
scheme_settings bearer a =
    if a.scheme == no_scheme then given a.token (λ t. httpauth bearer) else httpauth a.scheme ∷ []

abbrev pub auth_settings : ℕ → Option RequestAuth → List Setting
auth_settings bearer none = []
auth_settings bearer (some a) =
    given a.username username
    ++ (given a.password password
        ++ (given a.token xoauth2_bearer
            ++ (given a.aws_sigv4_value aws_sigv4 ++ scheme_settings bearer a)))

abbrev pub no_body_settings : Method → List Setting
no_body_settings Method.post = postfieldsize 0 ∷ []
no_body_settings Method.put = postfieldsize 0 ∷ []
no_body_settings _ = []

abbrev pub body_settings : Platform → Option Bytes → Option Bytes → Method → List Setting
body_settings p (some form) fields method = mimepost (entries_of p form) ∷ []
body_settings p none (some fields) method = postfieldsize (length fields) ∷ postfields fields ∷ []
body_settings p none none method = no_body_settings method

abbrev pub flag_settings : Settings → List Setting
flag_settings q = followlocation (is_true q.allow_redirects) ∷ verbose (is_true q.verbose) ∷ []

abbrev pub header_settings : List Bytes → List Setting
header_settings [] = []
header_settings (h ∷ hs) = httpheader (h ∷ hs) ∷ []

abbrev pub timeout_settings : ℤ → (ℕ → Setting) → List Setting
timeout_settings (pos t) f = f t ∷ []
timeout_settings (negsuc t) f = []

abbrev pub verify_settings : ℤ → (Bool → Setting) → List Setting
verify_settings z f = if int_eq z minus_one then [] else f (is_true z) ∷ []

abbrev pub limit_settings : Settings → List Setting
limit_settings q =
    timeout_settings q.timeout_connect connecttimeout_ms
    ++ (timeout_settings q.timeout timeout_ms
        ++ (verify_settings q.verify_host verifyhost_of
            ++ (verify_settings q.verify_peer ssl_verifypeer
                ++ verify_settings q.verify_status ssl_verifystatus)))

-- All that the request asks for, up to its headers.
abbrev pub asked_first : ℕ → Platform → Settings → List Setting
asked_first bearer p q =
    method_settings q.method q.custom_method
    ++ (url_settings q
        ++ (auth_settings bearer q.auth
            ++ (body_settings p q.form q.postfields q.method ++ flag_settings q)))

-- All that it asks for.
abbrev pub asked : ℕ → Platform → Settings → List Bytes → List Setting
asked bearer p q headers = asked_first bearer p q ++ (header_settings headers ++ limit_settings q)
