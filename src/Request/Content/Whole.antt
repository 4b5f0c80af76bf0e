-- ===== src/Request/Content/Whole.antt =====
-- The body of a response is collected whole.
use Prim.Native.Nat.{◌^◌, ◌%◌}
use mathlib.Core.List.{append_assoc, append-nil}
use trequests.Base.{
  ℕ, pos, ◌+◌, ◌*◌, ◌≤◌, true, List, [], ◌∷◌, ◌++◌, some, Bytes, if◌then◌else◌, ltb, ◌≡◌, length,
  arith, take, refl, length-append, ap, sym, subst, ◌∙◌,
}
use trequests.Request.Content.{
  TclSize, int_size, wide_size, size_max, to_tcl_size, Received, wrote, write_callback, store_chunk,
  receive, bytes_of,
}

abbrev pub concat : List Bytes → Bytes
concat [] = []
concat (c ∷ cs) = c ++ concat cs

-- The size is that of the buffer.
abbrev pub IsSized : Received → Type 0
IsSized q = q.content_size ≡ pos (length (bytes_of q.content))

take-all : (s : Bytes) → take (length s) s ≡ s
take-all [] = refl
take-all (c ∷ s) = rw (take-all s) refl

no_wrap : (s : TclSize) (n : ℕ) → n ≤ size_max s → (1 * n) % 2 ^ 64 ≡ n
no_wrap int_size n small = omega arith
no_wrap wide_size n small = omega arith

-- A size that fits is kept.
to_tcl_size-fits : (s : TclSize) (m : ℕ) → m ≤ size_max s → to_tcl_size s m ≡ pos m
to_tcl_size-fits int_size m small =
    let same : m % 4294967296 ≡ m = omega arith in rw same (ground arith)
to_tcl_size-fits wide_size m small =
    let same : m % 18446744073709551616 ≡ m = omega arith in rw same (ground arith)

-- The buffer with a chunk behind it.
abbrev grown : Received → Bytes → Received
grown q chunk = record q {
  content = some (bytes_of q.content ++ chunk);
  content_size = pos (length (bytes_of q.content ++ chunk));
}

abbrev after : Received → Bytes → Received
after q [] = q
after q (c ∷ cs) = grown q (c ∷ cs)

store_chunk-grown :
    (s : TclSize) (q : Received) (chunk : Bytes)
    → IsSized q
    → length (bytes_of q.content) + length chunk ≤ size_max s
    → store_chunk s true q chunk (length chunk) ≡ (grown q chunk, wrote (length chunk))
unfolding store_chunk
store_chunk-grown s q chunk sized fits =
    let old = bytes_of q.content in
    let n = length old + length chunk in
    rw (sized, take-all old, take-all chunk, to_tcl_size-fits s n fits, length-append old chunk)
      refl

write_callback-store :
    (s : TclSize) (q : Received) (chunk : Bytes)
    → length chunk ≤ size_max s
    → ltb 0 (length chunk) ≡ true
    → write_callback s true q chunk 1 (length chunk) ≡ store_chunk s true q chunk (length chunk)
unfolding write_callback
write_callback-store s q chunk small more =
    subst
      (λ n.
        (if ltb 0 n then store_chunk s true q chunk n else (q, wrote n))
        ≡ store_chunk s true q chunk (length chunk))
      (sym (no_wrap s (length chunk) small)) (rw more refl)

write_callback-after :
    (s : TclSize) (q : Received) (chunk : Bytes)
    → IsSized q
    → length (bytes_of q.content) + length chunk ≤ size_max s
    → write_callback s true q chunk 1 (length chunk) ≡ (after q chunk, wrote (length chunk))
unfolding write_callback
write_callback-after s q [] sized fits = refl
write_callback-after s q (c ∷ cs) sized fits =
    write_callback-store s q (c ∷ cs) (omega arith) (ground arith)
    ∙ store_chunk-grown s q (c ∷ cs) sized fits

after_lem :
    (q : Received) (chunk : Bytes)
    → IsSized q
    → (bytes_of (after q chunk).content ≡ bytes_of q.content ++ chunk)
      × IsSized (after q chunk)
      × ((after q chunk).state ≡ q.state)
after_lem q [] sized = (sym (append-nil (bytes_of q.content)), sized, refl)
after_lem q (c ∷ cs) sized = (refl, refl, refl)

receive-step :
    (s : TclSize) (q : Received) (c : Bytes) (cs : List Bytes)
    → write_callback s true q c 1 (length c) ≡ (after q c, wrote (length c))
    → receive s q (c ∷ cs) ≡ receive s (after q c) cs
unfolding receive
receive-step s q c cs e = ground (arith, e)

-- Chunks of any number, whose bytes fit a Tcl_Size together with those that are in the buffer, are
-- taken whole and in order behind what is in the buffer, whose size stays right, and the state does
-- not change.
pub receive-concat :
    (s : TclSize) (chunks : List Bytes) (q : Received)
    → IsSized q
    → length (bytes_of q.content) + length (concat chunks) ≤ size_max s
    → (r : Received) × (receive s q chunks ≡ some r)
      × (bytes_of r.content ≡ bytes_of q.content ++ concat chunks)
      × IsSized r
      × (r.state ≡ q.state)
receive-concat s [] q sized fits =
    (q, unfold receive in refl, sym (append-nil (bytes_of q.content)), sized, refl)
receive-concat s (c ∷ cs) q sized fits =
    let (bytes, size, state) = after_lem q c sized in
    let longer = length-append c (concat cs) in
    let total : length (bytes_of (after q c).content) ≡ length (bytes_of q.content) + length c =
      ap length bytes ∙ length-append (bytes_of q.content) c in
    let (r, e, bytes', size', state') =
      receive-concat s cs (after q c) size (omega (arith, longer, total)) in
    (
      r,
      receive-step s q c cs (write_callback-after s q c sized (omega (arith, longer))) ∙ e,
      bytes' ∙ ap (λ b. b ++ concat cs) bytes ∙ append_assoc (bytes_of q.content) c (concat cs),
      size',
      state' ∙ state,
    )
