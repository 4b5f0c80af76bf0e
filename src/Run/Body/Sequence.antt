-- ===== src/Run/Body/Sequence.antt =====
-- `treq_RequestRun` sets what the request asks for, in the order of that list.
use trequests.Auth.{RequestAuth}
use trequests.Base.{
  ℕ, ℤ, pos, negsuc, Bool, List, [], ◌∷◌, ◌++◌, Option, none, some, Bytes, if◌then◌else◌, ◌≡◌, refl,
  sym, ◌∙◌, ap, arith,
}
use trequests.Options.Platform.{Platform}
use trequests.Request.Settings.{Method, Settings}
use trequests.Run.Body.{set_body, curl_headers, configure}
use trequests.Run.Setup.{
  set_method, set_query, set_url, set_scheme, set_auth, set_flags, set_headers, set_timeout,
  set_verify, verifyhost_of, set_limits,
}
use trequests.Run.{
  Setting, Progress, going, stopped, Curl, safe_setopt, safe_setopt_if, curlu, url, username,
  password, xoauth2_bearer, aws_sigv4, connecttimeout_ms, timeout_ms, ssl_verifypeer,
  ssl_verifystatus,
}
use trequests.Run.Body.Asked.{
  method_settings, given, non_empty_query, url_settings, scheme_settings, auth_settings,
  body_settings, flag_settings, header_settings, timeout_settings, verify_settings, limit_settings,
  asked_first, asked,
}

module _ (c : Curl) where
  -- One setting after the other, until one is refused.
  abbrev pub set_all : List Setting → Progress → Progress
  set_all [] g = g
  set_all (s ∷ ss) g = set_all ss (safe_setopt c s g)

  set_all-append :
      (ss ts : List Setting) (g : Progress) → set_all (ss ++ ts) g ≡ set_all ts (set_all ss g)
  set_all-append [] ts g = refl
  set_all-append (s ∷ ss) ts g = set_all-append ss ts (safe_setopt c s g)

  -- What a part of the function sets.
  pub record Asks (f : Progress → Progress) (ss : List Setting) : Type 0 where
    pub sets : (g : Progress) → f g ≡ set_all ss g

  infixr 20 ◌then◌
  ◌then◌ :
      {f h : Progress → Progress} {ss ts : List Setting}
      → Asks f ss
      → Asks h ts
      → Asks (λ g. h (f g)) (ss ++ ts)
  ◌then◌ {f} {h} {ss} {ts} a b = record {
    sets = λ g. b.sets (f g) ∙ ap (λ x. set_all ts x) (a.sets g) ∙ sym (set_all-append ss ts g);
  }

  set_method-Asks :
      (m : Method) (name : Option Bytes) → Asks (set_method c m name) (method_settings m name)
  unfolding set_method
  set_method-Asks Method.head name = record { sets = λ g. refl }
  set_method-Asks Method.get name = record { sets = λ g. refl }
  set_method-Asks Method.post name = record { sets = λ g. refl }
  set_method-Asks Method.put name = record { sets = λ g. refl }
  set_method-Asks Method.patch name = record { sets = λ g. refl }
  set_method-Asks Method.delete name = record { sets = λ g. refl }
  set_method-Asks Method.custom name = record { sets = λ g. refl }

  set_query-Asks : (q : Option Bytes) → Asks (set_query c q) (non_empty_query q)
  unfolding set_query
  set_query-Asks none = record { sets = λ g. refl }
  set_query-Asks (some []) = record { sets = λ g. refl }
  set_query-Asks (some (x ∷ xs)) = record { sets = λ g. refl }

  set_url-Asks : (q : Settings) → Asks (set_url c q) (url_settings q)
  unfolding set_url
  set_url-Asks q = record { sets = (first then set_query-Asks q.querystring then last).sets }
    where
      first : Asks (safe_setopt c (url q.url)) (url q.url ∷ [])
      first = record { sets = λ g. refl }

      last : Asks (safe_setopt c curlu) (curlu ∷ [])
      last = record { sets = λ g. refl }

  given-Asks : (v : Option Bytes) (f : Bytes → Setting) → Asks (safe_setopt_if c v f) (given v f)
  unfolding safe_setopt_if
  given-Asks none f = record { sets = λ g. refl }
  given-Asks (some v) f = record { sets = λ g. refl }

  set_scheme-Asks : (a : RequestAuth) → Asks (set_scheme c a) (scheme_settings c.bearer_only a)
  unfolding set_scheme
  set_scheme-Asks a = record { sets = λ g. ground arith }

  set_auth-Asks : (a : Option RequestAuth) → Asks (set_auth c a) (auth_settings c.bearer_only a)
  unfolding set_auth
  set_auth-Asks none = record { sets = λ g. refl }
  set_auth-Asks (some a) = record {
    sets =
        (given-Asks a.username username
          then given-Asks a.password password
          then given-Asks a.token xoauth2_bearer
          then given-Asks a.aws_sigv4_value aws_sigv4
          then set_scheme-Asks a).sets;
  }

  set_timeout-Asks : (z : ℤ) (f : ℕ → Setting) → Asks (set_timeout c z f) (timeout_settings z f)
  unfolding set_timeout
  set_timeout-Asks (pos t) f = record { sets = λ g. refl }
  set_timeout-Asks (negsuc t) f = record { sets = λ g. refl }

  set_verify-Asks : (z : ℤ) (f : Bool → Setting) → Asks (set_verify c z f) (verify_settings z f)
  unfolding set_verify
  set_verify-Asks z f = record { sets = λ g. ground arith }

  set_limits-Asks : (q : Settings) → Asks (set_limits c q) (limit_settings q)
  unfolding set_limits
  set_limits-Asks q = record {
    sets =
        (set_timeout-Asks q.timeout_connect connecttimeout_ms
          then set_timeout-Asks q.timeout timeout_ms
          then set_verify-Asks q.verify_host verifyhost_of
          then set_verify-Asks q.verify_peer ssl_verifypeer
          then set_verify-Asks q.verify_status ssl_verifystatus).sets;
  }

  set_body-Asks :
      (p : Platform) (form fields : Option Bytes) (m : Method)
      → Asks (set_body c p form fields m) (body_settings p form fields m)
  unfolding set_body
  set_body-Asks p (some form) fields m = record { sets = λ g. refl }
  set_body-Asks p none (some fields) m = record { sets = λ g. refl }
  set_body-Asks p none none Method.post = record { sets = λ g. refl }
  set_body-Asks p none none Method.put = record { sets = λ g. refl }
  set_body-Asks p none none Method.head = record { sets = λ g. refl }
  set_body-Asks p none none Method.get = record { sets = λ g. refl }
  set_body-Asks p none none Method.patch = record { sets = λ g. refl }
  set_body-Asks p none none Method.delete = record { sets = λ g. refl }
  set_body-Asks p none none Method.custom = record { sets = λ g. refl }

  set_flags-Asks : (q : Settings) → Asks (set_flags c q) (flag_settings q)
  unfolding set_flags
  set_flags-Asks q = record { sets = λ g. refl }

  set_headers-eq :
      (hs : List Bytes) (g : Progress) → set_headers c (some hs) g ≡ set_all (header_settings hs) g
  unfolding set_headers safe_setopt
  set_headers-eq [] (going made) = refl
  set_headers-eq [] (stopped made m) = refl
  set_headers-eq (h ∷ hs) (going made) = refl
  set_headers-eq (h ∷ hs) (stopped made m) = refl

  set_headers-Asks : (hs : List Bytes) → Asks (set_headers c (some hs)) (header_settings hs)
  set_headers-Asks hs = record { sets = λ g. set_headers-eq hs g }

  module _ (p : Platform) (q : Settings) where
    -- Up to the headers.
    configure_first : Progress → Progress
    configure_first g = set_flags c q (
        set_body c p q.form q.postfields q.method
          (set_auth c q.auth (set_url c q (set_method c q.method q.custom_method g))))

    configure_first-Asks : Asks configure_first (asked_first c.bearer_only p q)
    unfolding configure_first
    configure_first-Asks = record {
      sets =
          (set_method-Asks q.method q.custom_method
            then set_url-Asks q
            then set_auth-Asks q.auth
            then set_body-Asks p q.form q.postfields q.method
            then set_flags-Asks q).sets;
    }

    pub configure-asked :
        (headers : List Bytes)
        → curl_headers c p q ≡ some headers
        → configure c p q ≡ set_all (asked c.bearer_only p q headers) (going [])
    unfolding configure configure_first
    configure-asked headers e = rw e (
        (configure_first-Asks then set_headers-Asks headers then set_limits-Asks q).sets (going []))
