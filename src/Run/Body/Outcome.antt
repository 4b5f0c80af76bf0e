-- ===== src/Run/Body/Outcome.antt =====
-- How far the settings of a request get.
use mathlib.Core.List.{append_assoc, append-nil}
use trequests.Base.{
  List, [], ◌∷◌, ◌++◌, none, some, Bytes, ◌≡◌, refl, sym, ◌∙◌, ap, inl, inr, Option-cases, arith,
}
use trequests.Options.Platform.{Platform}
use trequests.Request.Settings.{Settings}
use trequests.Run.Body.Asked.{asked}
use trequests.Run.Body.Sequence.{set_all, configure-asked}
use trequests.Run.Body.{curl_headers, configure}
use trequests.Run.{Setting, Progress, going, stopped, Curl, safe_setopt, setting_message}

module _ (c : Curl) where
  -- All of `ss` is made behind `made`, or one of them is refused after those in front of it.
  pub data Outcome (made ss : List Setting) (g : Progress) : Type 0 where
    all_made : g ≡ going (made ++ ss) → Outcome made ss g
    refused :
        (front : List Setting) (s : Setting) (rest : List Setting) (reason : Bytes)
        → ss ≡ front ++ s ∷ rest
        → c.setopt (made ++ front) s ≡ some reason
        → g ≡ stopped (made ++ front) (setting_message s reason)
        → Outcome made ss g

  set_all-stopped :
      (ss made : List Setting) (m : Bytes) → set_all c ss (stopped made m) ≡ stopped made m
  unfolding safe_setopt
  set_all-stopped [] made m = refl
  set_all-stopped (s ∷ ss) made m = set_all-stopped ss made m

  later :
      (made ss : List Setting) (s : Setting) (g : Progress)
      → Outcome (made ++ s ∷ []) ss g
      → Outcome made (s ∷ ss) g
  later made ss s g (all_made e) = all_made (e ∙ ap going (append_assoc made (s ∷ []) ss))
  later made ss s g (refused front t rest reason split deny e) =
      let before = append_assoc made (s ∷ []) front in
      refused (s ∷ front) t rest reason (ap (λ x. s ∷ x) split)
        (ap (λ x. c.setopt x t) (sym before) ∙ deny)
        (e ∙ ap (λ x. stopped x (setting_message t reason)) before)

  taken :
      (s : Setting) (made : List Setting)
      → c.setopt made s ≡ none
      → safe_setopt c s (going made) ≡ going (made ++ s ∷ [])
  unfolding safe_setopt
  taken s made e = ground arith

  denied :
      (s : Setting) (made : List Setting) (reason : Bytes)
      → c.setopt made s ≡ some reason
      → safe_setopt c s (going made) ≡ stopped made (setting_message s reason)
  unfolding safe_setopt
  denied s made reason e = ground arith

  set_all-Outcome : (ss made : List Setting) → Outcome made ss (set_all c ss (going made))
  set_all-Outcome [] made = all_made (ap going (sym (append-nil made)))
  set_all-Outcome (s ∷ ss) made = elim (Option-cases (c.setopt made s)) [
    | inl e ↦ rw (taken s made e) (later made ss s _ (set_all-Outcome ss (made ++ s ∷ [])))
    | inr (reason, e) ↦ refused [] s ss reason refl (rw (append-nil made) e) (
        rw (denied s made reason e, append-nil made)
          (set_all-stopped ss made (setting_message s reason)))
  ]

  -- For a request whose list of headers can be made, the calls of libcurl are those of an
  -- independent list of what the request asks for, in its order: either all of them are made, or
  -- the first one that libcurl refuses after those in front of it ends the function, with a message
  -- that names it.
  pub configure-Outcome :
      (p : Platform) (q : Settings) (headers : List Bytes)
      → curl_headers c p q ≡ some headers
      → Outcome [] (asked c.bearer_only p q headers) (configure c p q)
  configure-Outcome p q headers e =
      rw (configure-asked c p q headers e) (set_all-Outcome (asked c.bearer_only p q headers) [])
