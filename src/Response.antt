-- ===== src/Response.antt =====
-- src/treqRequest.c: what a request shows of its response. The headers come from libcurl and the
-- encodings from Tcl.
pub mod Headers
pub mod Decoded
use trequests.Base.{
  ℕ, Bool, true, false, List, [], ◌∷◌, ◌++◌, Option, none, some, Bytes, codes, if◌then◌else◌,
}
use trequests.Text.Charset.{convert_charset_to_encoding}
use trequests.Text.ContentType.{parse_content_type}

-- The encodings of Tcl: `Tcl_GetEncoding`, `Tcl_GetEncodingName` and `Tcl_ExternalToUtfDString`, where
-- a NULL encoding is that of the system; and `curl_strnequal`.
pub record Encodings : Type 1 where
  pub Encoding : Type 0
  pub find_encoding : Bytes → Option Encoding
  pub encoding_name : Option Encoding → Bytes
  pub to_utf : Option Encoding → Bytes → Bytes
  pub strnequal : Bytes → Bytes → ℕ → Bool

module _ (t : Encodings) where
  open t use {Encoding, find_encoding, encoding_name, to_utf, strnequal}

  -- The fields of the request for its response; `none` is NULL.
  pub record Response : Type 0 where
    pub content : Option Bytes
    pub encoding : Option Encoding
    pub content_type : Option Bytes
    pub content_charset : Option Bytes

  abbrev pub default_encoding : Option Encoding
  default_encoding = find_encoding (codes "iso8859-1")

  -- `treq_RequestUpdateContentType`, with the header Content-Type, if there is one. The result says
  -- whether there is; `none` is a fault of `treq_ParseContentType`.
  unfoldable pub update_content_type : Option Bytes → Response → Option (Bool × Response)
  update_content_type none q = some (false, q)
  update_content_type (some h) q = elim (parse_content_type strnequal h) [
    | none ↦ none
    | some (type, charset) ↦
        some (true, record q { content_type = some type; content_charset = some charset })
  ]

  pub known_or_default : Option Encoding → Option Encoding
  known_or_default none = default_encoding
  known_or_default (some e) = some e

  -- The encoding for a charset; an empty one is a charset that the server did not set.
  unfoldable pub encoding_for : Bytes → Option Encoding
  unfolding known_or_default
  encoding_for [] = default_encoding
  encoding_for (c ∷ cs) = known_or_default (find_encoding (convert_charset_to_encoding (c ∷ cs)))

  unfoldable pub use_charset : Option Bytes → Response → Bool × Response
  unfolding encoding_for
  use_charset none q = (false, q)
  use_charset (some charset) q = (true, record q { encoding = encoding_for charset })

  -- `treq_RequestUpdateEncoding`
  unfoldable pub update_encoding : Option Bytes → Response → Option (Bool × Response)
  unfolding update_content_type use_charset
  update_encoding header q = elim q.content_charset [
    | some charset ↦ some (use_charset (some charset) q)
    | none ↦ elim (update_content_type header q) [
      | none ↦ none
      | some (known, q') ↦
          if known then some (use_charset q'.content_charset q') else some (false, q')
    ]
  ]

  -- `req->encoding == NULL && !treq_RequestUpdateEncoding(req)`, negated.
  unfoldable pub has_encoding : Option Bytes → Response → Option (Bool × Response)
  unfolding update_encoding
  has_encoding header q = elim q.encoding [
    | some e ↦ some (true, q)
    | none ↦ update_encoding header q
  ]

  -- `treq_RequestGetEncoding`
  unfoldable pub get_encoding : Option Bytes → Response → Option (Bytes × Response)
  unfolding has_encoding
  get_encoding header q = elim (has_encoding header q) [
    | none ↦ none
    | some (has, q') ↦ some (if has then encoding_name q'.encoding else codes "iso8859-1", q')
  ]

  -- `treq_RequestSetEncoding`
  unfoldable pub set_encoding : Encoding → Response → Response
  set_encoding e q = record q { encoding = some e }

  -- `treq_RequestGetText`
  unfoldable pub get_text : Option Bytes → Response → Option (Bytes × Response)
  unfolding has_encoding
  get_text header q = elim q.content [
    | none ↦ some ([], q)
    | some body ↦ elim (has_encoding header q) [
      | none ↦ none
      | some (has, q') ↦ some (to_utf (if has then q'.encoding else default_encoding) body, q')
    ]
  ]

  -- `treq_RequestGetContent`
  unfoldable pub get_content : Response → Bytes
  get_content q = elim q.content [ none ↦ [] | some body ↦ body ]
