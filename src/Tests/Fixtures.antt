-- ===== src/Tests/Fixtures.antt =====
-- Concrete stand-ins for the functions of libcurl and of Tcl that the models take as arguments.
use trequests.Auth.{CurlAuth, AuthOption, any, only, basic, digest}
use trequests.Base.{
  ℕ, Bool, [], ◌∷◌, Option, none, some, Bytes, codes, str_eq, to_lower, map, take, if◌then◌else◌,
  ◌==◌,
}
use trequests.Text.Urlencode.Chunks.{encode_each}

-- Comparison but for case.
unfoldable pub same_text : Bytes → Bytes → Bool
unfolding str_eq to_lower
same_text a b = str_eq (map to_lower a) (map to_lower b)

abbrev pub strnequal : Bytes → Bytes → ℕ → Bool
strnequal a b n = same_text (take n a) (take n b)

-- An encoding of a byte: a space becomes "%20".
abbrev pub percent : ℕ → Bytes
percent c = if c == 32 then codes "%20" else c ∷ []

abbrev pub escape_percent : Bytes → Option Bytes
escape_percent s = some (encode_each percent s)

-- The flags of curl.h.
abbrev pub curl_flags : CurlAuth
curl_flags = record {
  any_flag = 18446744073709551599;
  anysafe_flag = 18446744073709551598;
  only_flag = 2147483648;
  basic_flag = 1;
  digest_flag = 2;
  digest_ie_flag = 16;
  bearer_flag = 64;
  negotiate_flag = 4;
  ntlm_flag = 8;
  aws_sigv4_flag = 128;
}

unfoldable pub auth_index : Bytes → Option AuthOption
unfolding str_eq
auth_index s =
    if str_eq s (codes "any")
    then some any
    else if str_eq s (codes "only")
    then some only
    else if str_eq s (codes "basic")
    then some basic
    else if str_eq s (codes "digest")
    then some digest
    else none
