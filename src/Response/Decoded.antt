-- ===== src/Response/Decoded.antt =====
-- The text of a response is its body in the encoding that the response names.
use trequests.Base.{
  ℕ, true, false, ◌∷◌, ◌++◌, Option, none, some, Bytes, codes, ◌≡◌, arith, take, map, to_lower,
  ◌==◌,
}
use trequests.Response.{Encodings, Response, get_text, get_encoding, encoding_for}
use trequests.Text.Charset.{convert_charset_to_encoding}
use trequests.Text.ContentType.Values.{IsToken, parse-token}
use trequests.Text.ContentType.{parse_content_type}

module _ (t : Encodings) where
  open t use {Encoding, find_encoding, encoding_name, to_utf, strnequal}

  -- The text and the encoding of a response of which neither was asked for before.
  abbrev pub Shows : Option Bytes → Response t → Bytes → Option Encoding → Type 0
  Shows header q body e =
      (r : Response t) × (get_text t header q ≡ some (to_utf e body, r))
      × (get_encoding t header q ≡ some (encoding_name e, r))
      × (get_text t header r ≡ some (to_utf e body, r))
      × (get_encoding t header r ≡ some (encoding_name e, r))

  parsed-Shows :
      (h : Bytes) (q : Response t) (body type charset : Bytes) (e : Encoding)
      → q.content ≡ some body
      → q.encoding ≡ none
      → q.content_charset ≡ none
      → parse_content_type strnequal h ≡ some (type, charset)
      → encoding_for t charset ≡ some e
      → Shows (some h) q body (some e)
  unfolding get_text get_encoding
  parsed-Shows h q body type charset e hb he hc hp hf =
      let r = record q {
        content_type = some type;
        content_charset = some charset;
        encoding = some e;
      } in
      (r, ground arith, ground arith, ground arith, ground arith)

  -- A response whose header Content-Type is a token, "; charset=" and a token with no quote in
  -- front, in any case: if Tcl has the encoding for the charset, which is cut at 32 bytes, then the
  -- text is the body decoded by it and the encoding has its name, in any order and as often as they
  -- are asked for.
  pub token_charset-Shows :
      (type : Bytes) (c : ℕ) (v body : Bytes) (q : Response t) (e : Encoding)
      → IsToken type
      → IsToken (c ∷ v)
      → (c == b'"') ≡ false
      → strnequal (codes "charset=" ++ (c ∷ v)) (codes "charset") 7 ≡ true
      → q.content ≡ some body
      → q.encoding ≡ none
      → q.content_charset ≡ none
      → find_encoding (convert_charset_to_encoding (take 32 (map to_lower (c ∷ v)))) ≡ some e
      → Shows (some (type ++ (codes "; charset=" ++ (c ∷ v)))) q body (some e)
  token_charset-Shows type c v body q e ht hv hq hn hb he hc hf =
      parsed-Shows (type ++ (codes "; charset=" ++ (c ∷ v))) q body (take 128 (map to_lower type))
        (take 32 (map to_lower (c ∷ v))) e hb he hc (parse-token strnequal type c v ht hv hq hn)
        (unfold encoding_for in rw hf)
