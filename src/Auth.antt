-- ===== src/Auth.antt =====
-- src/treqRequestAuth.c: the parser of the option -auth_scheme, and the record of credentials.
-- The flags CURLAUTH_... of libcurl and `Tcl_GetIndexFromObj` are parameters. A C `long` is
-- its 64-bit pattern.
pub mod Accepts
use trequests.Base.{
  ℕ, suc, ◌+◌, bit_or, Bool, true, false, not, ◌&&◌, List, [], ◌∷◌, Option, none, some, Bytes,
  length, if◌then◌else◌, ◌==◌,
}

pub data AuthOption : Type 0 where
  any anysafe only basic digest digest_ie bearer negotiate ntlm aws_sigv4 : AuthOption

-- The constants of curl.h.
pub record CurlAuth : Type 0 where
  pub any_flag : ℕ
  pub anysafe_flag : ℕ
  pub only_flag : ℕ
  pub basic_flag : ℕ
  pub digest_flag : ℕ
  pub digest_ie_flag : ℕ
  pub bearer_flag : ℕ
  pub negotiate_flag : ℕ
  pub ntlm_flag : ℕ
  pub aws_sigv4_flag : ℕ

-- The messages left in the interpreter. `unknown` is that of `Tcl_GetIndexFromObj`.
pub data AuthError : Type 0 where
  empty_list : AuthError
  unknown : Bytes → AuthError
  not_the_only_value : AuthOption → AuthError
  not_with_one_value : AuthError
  specified_twice : AuthError

pub data Parsed (A : Type 0) : Type 0 where
  ok : A → Parsed A
  failed : AuthError → Parsed A

-- The flag of a scheme; the first three options are no schemes.
unfoldable pub scheme_flag : CurlAuth → AuthOption → Option ℕ
scheme_flag c any = none
scheme_flag c anysafe = none
scheme_flag c only = none
scheme_flag c basic = some c.basic_flag
scheme_flag c digest = some c.digest_flag
scheme_flag c digest_ie = some c.digest_ie_flag
scheme_flag c bearer = some c.bearer_flag
scheme_flag c negotiate = some c.negotiate_flag
scheme_flag c ntlm = some c.ntlm_flag
scheme_flag c aws_sigv4 = some c.aws_sigv4_flag

-- The case of "only".
pub parse_only : CurlAuth → ℕ → ℕ → ℕ → Parsed ℕ
parse_only c objc i result =
    if not (objc == 2)
    then failed not_with_one_value
    else if i == 1 && result == c.only_flag
    then failed specified_twice
    else ok (bit_or result c.only_flag)

-- The switch on one option, at index `i` of a list of `objc` elements.
pub parse_switch : CurlAuth → ℕ → ℕ → ℕ → AuthOption → Parsed ℕ
unfolding parse_only
parse_switch c objc i result any =
    if not (objc == 1) then failed (not_the_only_value any) else ok c.any_flag
parse_switch c objc i result anysafe =
    if not (objc == 1) then failed (not_the_only_value anysafe) else ok c.anysafe_flag
parse_switch c objc i result only = parse_only c objc i result
parse_switch c objc i result basic = ok (bit_or result c.basic_flag)
parse_switch c objc i result digest = ok (bit_or result c.digest_flag)
parse_switch c objc i result digest_ie = ok (bit_or result c.digest_ie_flag)
parse_switch c objc i result bearer = ok (bit_or result c.bearer_flag)
parse_switch c objc i result negotiate = ok (bit_or result c.negotiate_flag)
parse_switch c objc i result ntlm = ok (bit_or result c.ntlm_flag)
parse_switch c objc i result aws_sigv4 = ok (bit_or result c.aws_sigv4_flag)

infixl 5 ◌>>=◌
abbrev pub ◌>>=◌ : {A B : Type 0} → Parsed A → (A → Parsed B) → Parsed B
ok a >>= f = f a
failed e >>= f = failed e

abbrev pub known : Bytes → Option AuthOption → Parsed AuthOption
known word none = failed (unknown word)
known word (some o) = ok o

module _ (c : CurlAuth) (get_index : Bytes → Option AuthOption) where
  -- The loop over the elements.
  pub parse_loop : ℕ → ℕ → ℕ → List Bytes → Parsed ℕ
  unfolding parse_switch
  parse_loop objc i result [] = ok result
  parse_loop objc i result (word ∷ words) = do
    o ← known word (get_index word)
    r ← parse_switch c objc i result o
    parse_loop objc (suc i) r words

  -- `treq_RequestAuthParseOption`
  unfoldable pub parse_option : List Bytes → Parsed ℕ
  unfolding parse_loop
  parse_option [] = failed empty_list
  parse_option (word ∷ words) = parse_loop (length (word ∷ words)) 0 0 (word ∷ words)

-- `treq_RequestAuthType`; `none` is NULL.
pub record RequestAuth : Type 0 where
  pub username : Option Bytes
  pub password : Option Bytes
  pub token : Option Bytes
  pub aws_sigv4_value : Option Bytes
  pub scheme : ℕ

-- `treq_RequestAuthInit`
abbrev pub init : Option Bytes → Option Bytes → Option Bytes → Option Bytes → ℕ → RequestAuth
init u p t a s = record { username = u; password = p; token = t; aws_sigv4_value = a; scheme = s }

-- `treq_RequestAuthDuplicate`: a request owns its credentials, as its session does.
abbrev pub duplicate : RequestAuth → RequestAuth
duplicate a = init a.username a.password a.token a.aws_sigv4_value a.scheme
