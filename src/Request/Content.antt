-- ===== src/Request/Content.antt =====
-- src/treqRequest.c, `treq_write_callback`: the buffer that collects the body. Whether the allocator
-- gives the memory is an argument.
pub mod Whole
use Prim.Native.Nat.{◌^◌, ◌%◌}
use trequests.Base.{
  ℕ, ℤ, pos, negsuc, zero, suc, ◌+◌, ◌-◌, ◌*◌, Bool, true, List, [], ◌∷◌, ◌++◌, Option, none, some,
  Bytes, if◌then◌else◌, leb, ltb, length, take,
}
use trequests.Request.Memory.{RequestState, error}

-- `Tcl_Size`, which is an `int` with Tcl 8.6 (src/common.h) and as wide as a pointer with Tcl 9.
pub data TclSize : Type 0 where
  int_size wide_size : TclSize

-- `TCL_SIZE_MAX`
abbrev pub size_max : TclSize → ℕ
size_max int_size = 2147483647
size_max wide_size = 9223372036854775807

-- 2 to the power of the width.
abbrev pub modulus : TclSize → ℕ
modulus int_size = 4294967296
modulus wide_size = 18446744073709551616

abbrev signed : TclSize → ℕ → ℤ
signed s m = if leb m (size_max s) then pos m else negsuc (modulus s - suc m)

-- The value of type `size_t` as a Tcl_Size, with its wrap-around.
abbrev pub to_tcl_size : TclSize → ℕ → ℤ
to_tcl_size s m = signed s (m % modulus s)

-- The fields of the request that the callback touches; `content` is the bytes of the buffer, and
-- `failure` the two numbers of the error message.
pub record Received : Type 0 where
  pub content : Option Bytes
  pub content_size : ℤ
  pub state : RequestState
  pub failure : Option (ℕ × ℤ)

-- The value that the callback returns to libcurl, or that it writes in front of the buffer, since the
-- size that it has kept is negative.
pub data Written : Type 0 where
  wrote : ℕ → Written
  write_error stray_write : Written

abbrev pub bytes_of : Option Bytes → Bytes
bytes_of none = []
bytes_of (some b) = b

-- The buffer after an allocation that failed: that of a first chunk is NULL.
abbrev kept_after_failure : ℤ → Option Bytes → Option Bytes
kept_after_failure (pos zero) content = none
kept_after_failure _ content = content

-- A chunk that is not empty, of `n` bytes: the first one allocates the buffer, a later one makes it
-- longer, and the bytes are copied to the index `content_size`.
unfoldable pub store_chunk : TclSize → Bool → Received → Bytes → ℕ → Received × Written
store_chunk s allocated q ptr n =
    if allocated
    then elim q.content_size [
      | pos m ↦ (
        record q {
          content = some (take m (bytes_of q.content) ++ take n ptr);
          content_size = to_tcl_size s (m + n);
        },
        wrote n,
      )
      | negsuc m ↦ (q, stray_write)
    ]
    else (
      record q {
        content = kept_after_failure q.content_size q.content;
        state = error;
        failure = some (n, q.content_size);
      },
      write_error,
    )

-- `treq_write_callback` on the chunk at `ptr` of `size * nmemb` bytes; an empty one does nothing.
unfoldable pub write_callback : TclSize → Bool → Received → Bytes → ℕ → ℕ → Received × Written
unfolding store_chunk
write_callback s allocated q ptr size nmemb =
    let n = (size * nmemb) % 2 ^ 64 in
    if ltb 0 n then store_chunk s allocated q ptr n else (q, wrote n)

-- The chunks of a body, each with its `nmemb` and `size` 1 as libcurl calls it, as long as the
-- callback takes them; `none` after a write in front of the buffer.
pub receive : TclSize → Received → List Bytes → Option Received
receive s q [] = some q
receive s q (chunk ∷ chunks) =
    let (q', written) = write_callback s true q chunk 1 (length chunk) in
    elim written [ wrote n ↦ receive s q' chunks | write_error ↦ some q' | stray_write ↦ none ]
