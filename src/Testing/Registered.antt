-- ===== src/Testing/Registered.antt =====
-- Every setting of a request is registered.
use trequests.Base.{
  ℕ, Bool, true, false, List, [], ◌∷◌, Option, none, some, Bytes, ◌≡◌, refl, str_eq, if◌then◌else◌,
  arith, ◌∙◌,
}
use trequests.Options.Platform.{Platform}
use trequests.Run.{
  Setting, setting_name, httpget, nobody, curlu, customrequest, url, query, username, password,
  xoauth2_bearer, aws_sigv4, httpauth, mimepost, postfieldsize, postfields, followlocation, verbose,
  httpheader, connecttimeout_ms, timeout_ms, ssl_verifyhost, ssl_verifypeer, ssl_verifystatus,
}
use trequests.Testing.{
  put_value, opt_string, opt_long, opt_pointer, opt_slist, OptionType, options, Passed,
  passed_string, passed_long, passed_int, passed_pointer, passed_slist, Registration, undefined,
  registered, register_easy_option, read_value,
}

abbrev long_of : Bool → ℕ
long_of true = 1
long_of false = 0

-- The value of a setting as `treq_RequestRun` passes it: the two timeouts are fields of type int,
-- all other numbers are longs.
abbrev pub passed : Setting → Passed
passed httpget = passed_long 1
passed nobody = passed_long 1
passed Setting.post = passed_long 1
passed curlu = passed_pointer
passed (customrequest v) = passed_string v
passed (url v) = passed_string v
passed (query v) = passed_string v
passed (username v) = passed_string v
passed (password v) = passed_string v
passed (xoauth2_bearer v) = passed_string v
passed (aws_sigv4 v) = passed_string v
passed (httpauth n) = passed_long n
passed (mimepost parts) = passed_pointer
passed (postfieldsize n) = passed_long n
passed (postfields v) = passed_string v
passed (followlocation b) = passed_long (long_of b)
passed (verbose b) = passed_long (long_of b)
passed (httpheader hs) = passed_slist hs
passed (connecttimeout_ms n) = passed_int n
passed (timeout_ms n) = passed_int n
passed (ssl_verifyhost n) = passed_long n
passed (ssl_verifypeer b) = passed_long (long_of b)
passed (ssl_verifystatus b) = passed_long (long_of b)

abbrev pub is_int : Passed → Bool
is_int (passed_int n) = true
is_int _ = false

-- The type in the table.
abbrev pub type_of : Passed → OptionType
type_of (passed_string v) = opt_string
type_of (passed_long n) = opt_long
type_of (passed_int n) = opt_long
type_of passed_pointer = opt_pointer
type_of (passed_slist l) = opt_slist

-- A look-up by the exact name, as documented: the first entry of that name.
pub find_name : {A : Type 0} → List (Bytes × A) → Bytes → Option A
unfolding str_eq
find_name [] name = none
find_name ((n, a) ∷ es) name = if str_eq n name then some a else find_name es name

abbrev pub IsRegistered : Registration → Type 0
IsRegistered (registered d) = Unit {0}
IsRegistered _ = ⊥

-- What a setting comes to.
abbrev pub Registers : Bool → Registration → Type 0
Registers true r = r ≡ undefined
Registers false r = IsRegistered r

known : (s : Setting) → find_name options (setting_name s) ≡ some (type_of (passed s))
unfolding find_name setting_name
known httpget = refl
known nobody = refl
known Setting.post = refl
known curlu = refl
known (customrequest v) = refl
known (url v) = refl
known (query v) = refl
known (username v) = refl
known (password v) = refl
known (xoauth2_bearer v) = refl
known (aws_sigv4 v) = refl
known (httpauth v) = refl
known (mimepost v) = refl
known (postfieldsize v) = refl
known (postfields v) = refl
known (followlocation v) = refl
known (verbose v) = refl
known (httpheader v) = refl
known (connecttimeout_ms v) = refl
known (timeout_ms v) = refl
known (ssl_verifyhost v) = refl
known (ssl_verifypeer v) = refl
known (ssl_verifystatus v) = refl

module _ (p : Platform) (find_exact : List (Bytes × OptionType) → Bytes → Option OptionType)
    (print_long : ℕ → Bytes) (print_list : List Bytes → Bytes) where
  found :
      (set_options : Option Bytes) (name : Bytes) (v : Passed) (type : OptionType)
      → find_exact options name ≡ some type
      → register_easy_option p find_exact print_long print_list set_options name v
        ≡ put_value p find_exact print_long print_list set_options name
            (read_value print_long print_list type v)
  unfolding register_easy_option
  found set_options name v type e = ground arith

  reads :
      (set_options : Option Bytes) (name : Bytes) (v : Passed)
      → Registers (is_int v) (
          put_value p find_exact print_long print_list set_options name
            (read_value print_long print_list (type_of v) v))
  unfolding put_value read_value
  reads set_options name (passed_string v) = tt
  reads set_options name (passed_long n) = tt
  reads set_options name (passed_int n) = refl
  reads set_options name passed_pointer = tt
  reads set_options name (passed_slist l) = tt

  -- For a look-up by the exact name, no setting of a request is a panic: each one is registered, but
  -- for the two timeouts, whose int is read as a long.
  pub register_easy_option-Registers :
      (set_options : Option Bytes) (s : Setting)
      → ((name : Bytes) → find_exact options name ≡ find_name options name)
      → Registers (is_int (passed s)) (
          register_easy_option p find_exact print_long print_list set_options
            (setting_name s)
            (passed s))
  register_easy_option-Registers set_options s exact =
      rw
        (found set_options (setting_name s) (passed s) (type_of (passed s))
          (exact (setting_name s) ∙ known s))
        (reads set_options (setting_name s) (passed s))
