-- ===== src/Text/Urlencode/Chunks.antt =====
-- Encoding by chunks is encoding byte by byte.
use mathlib.Core.List.{append_assoc, append-nil}
use trequests.Base.{
  ℕ, zero, suc, ◌+◌, ◌-◌, ◌≤◌, ◌<◌, true, false, [], ◌∷◌, ◌++◌, ◌≡◌, refl, sym, ◌∙◌, ap, Option,
  some, Bytes, take, drop, length, ◌==◌, arith, length-drop, length-take, take-append-drop,
}
use trequests.Text.Urlencode.{bytes_to_encode, encode_loop, urlencode, curl_max_input_length}

-- Every byte on its own: the independent description.
abbrev pub encode_each : (ℕ → Bytes) → Bytes → Bytes
encode_each encode [] = []
encode_each encode (c ∷ cs) = encode c ++ encode_each encode cs

encode_each-append :
    (encode : ℕ → Bytes) (s t : Bytes)
    → encode_each encode (s ++ t) ≡ encode_each encode s ++ encode_each encode t
encode_each-append encode [] t = refl
encode_each-append encode (c ∷ s) t =
    rw (encode_each-append encode s t) (sym (append_assoc (encode c) _ _))

-- `curl_easy_escape` on 1 to `limit` bytes encodes byte by byte. A length of 0 means to it that it
-- is to count the bytes itself, so nothing is said of that.
abbrev pub EscapesEach : (Bytes → Option Bytes) → (ℕ → Bytes) → ℕ → Type 0
EscapesEach escape encode limit =
    (s : Bytes) → 0 < length s → length s ≤ limit → escape s ≡ some (encode_each encode s)

module _ (escape : Bytes → Option Bytes) (encode : ℕ → Bytes) (limit : ℕ) where
  encode_loop-round :
      (fuel n : ℕ) (result rest : Bytes)
      → EscapesEach escape encode limit
      → 0 < limit
      → length rest ≡ n
      → (n == 0) ≡ false
      → let k = bytes_to_encode limit n in
        (encode_loop escape (suc fuel) limit result rest n
          ≡ encode_loop escape fuel limit
              (result ++ encode_each encode (take k rest))
              (drop k rest)
              (n - k))
        × (0 < k)
        × (k ≤ n)
  unfolding encode_loop
  encode_loop-round fuel n result rest each pos len ne =
      let k = bytes_to_encode limit n in
      let bounds : (0 < k) × (k ≤ n) × (k ≤ limit) = ground arith in
      let taken : length (take k rest) ≡ k = omega (arith, length-take k rest) in
      (rw (ne, each (take k rest) (omega arith) (omega arith)) refl, bounds.0, bounds.1)

  encode_loop_lem :
      (fuel n : ℕ) (result rest : Bytes)
      → EscapesEach escape encode limit
      → 0 < limit
      → length rest ≡ n
      → n < fuel
      → encode_loop escape fuel limit result rest n ≡ some (result ++ encode_each encode rest)
  encode_loop_lem zero n result rest each pos len lt = absurd (omega arith)
  encode_loop_lem (suc fuel) n result [] each pos len lt =
      let done : (n == 0) ≡ true = ground arith in
      unfold encode_loop in rw done (ap some (sym (append-nil result)))
  encode_loop_lem (suc fuel) n result (c ∷ cs) each pos len lt =
      let rest : Bytes = c ∷ cs in
      let k = bytes_to_encode limit n in
      let (step, more, within) = encode_loop-round fuel n result rest each pos len (ground arith) in
      let left : length (drop k rest) ≡ n - k = omega (arith, length-drop k rest) in
      step
      ∙ encode_loop_lem fuel (n - k) (result ++ encode_each encode (take k rest)) (drop k rest) each
          pos left (omega arith)
      ∙ rw (append_assoc, ← encode_each-append, take-append-drop k rest)

-- Whatever the length of the data, the loop ends within its fuel and gives the data encoded byte
-- by byte, if `curl_easy_escape` does so on every non-empty chunk within its limit of 8000000.
pub urlencode_lem :
    (escape : Bytes → Option Bytes) (encode : ℕ → Bytes) (s : Bytes)
    → EscapesEach escape encode curl_max_input_length
    → urlencode escape s ≡ some (encode_each encode s)
unfolding urlencode
urlencode_lem escape encode s each =
    encode_loop_lem escape encode curl_max_input_length (length s + 1) (length s) [] s each
      (omega arith) refl (omega arith)
