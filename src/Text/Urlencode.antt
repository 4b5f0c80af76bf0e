-- ===== src/Text/Urlencode.antt =====
-- src/common.c, `treq_UrlencodeTclObject` and `treq_UrldecodeString`. `curl_easy_escape` and
-- `curl_easy_unescape` of libcurl are parameters; `none` is their NULL.
pub mod Chunks
use trequests.Base.{
  ℕ, zero, suc, Bool, [], ◌++◌, Option, none, some, Bytes, take, drop, length, if◌then◌else◌, ltb,
  ◌==◌, ◌-◌, ◌+◌,
}

-- `CURL_MAX_INPUT_LENGTH`
abbrev pub curl_max_input_length : ℕ
curl_max_input_length = 8000000

-- `INT_MAX`
abbrev pub int_max : ℕ
int_max = 2147483647

-- `(bytes_left > CURL_MAX_INPUT_LENGTH ? CURL_MAX_INPUT_LENGTH : bytes_left)`, for any limit.
pub bytes_to_encode : ℕ → ℕ → ℕ
bytes_to_encode limit bytes_left = if ltb limit bytes_left then limit else bytes_left

module _ (escape : Bytes → Option Bytes) where
  -- What the loop does with an encoded chunk, and with a chunk that cannot be encoded.
  abbrev pub append_chunk : Bytes → Option Bytes → (Bytes → Option Bytes) → Option Bytes
  append_chunk result none next = none
  append_chunk result (some encoded) next = next (result ++ encoded)

  -- The loop, with fuel: `none` also where the fuel runs out. `&data_str[pos]` is what is left of
  -- the data, and `bytes_left` its length.
  pub encode_loop : ℕ → ℕ → Bytes → Bytes → ℕ → Option Bytes
  unfolding bytes_to_encode
  encode_loop zero limit result rest bytes_left = none
  encode_loop (suc fuel) limit result rest bytes_left =
      let n = bytes_to_encode limit bytes_left in
      let next = λ (r : Bytes). encode_loop fuel limit r (drop n rest) (bytes_left - n) in
      let chunk = append_chunk result (escape (take n rest)) next in
      if bytes_left == 0 then some result else chunk

  -- A round of the loop takes at least one byte, so one more than the length is fuel enough.
  unfoldable pub urlencode : Bytes → Option Bytes
  unfolding encode_loop
  urlencode s = encode_loop (length s + 1) curl_max_input_length [] s (length s)

-- `treq_UrldecodeString`
unfoldable pub urldecode : (Bytes → Option Bytes) → Bytes → Option Bytes
urldecode unescape s = if ltb int_max (length s) then none else unescape s
