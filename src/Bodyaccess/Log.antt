-- ===== src/Bodyaccess/Log.antt =====
-- bodyaccess_log() of src/vmod_bodyaccess.c: one piece of a body, cut into lines.
use operations_debs_varnish.Base.{
  ℕ, zero, suc, ◌+◌, ◌-◌, ◌%◌, ◌^◌, Bool, List, [], ◌∷◌, ◌++◌, Option, none, some, ltb, ◌&&◌,
  if◌then◌else◌, ◌>>=◌, Bytes, length, take, drop,
}
use operations_debs_varnish.Base.Int.{ℤ, pos, negsuc}

-- A VCL_INT stored in a size_t of 64 bits.
unfoldable pub to_size : ℤ → ℕ
to_size (pos n) = n % 2 ^ 64
to_size (negsuc n) = 2 ^ 64 - 1 - n % 2 ^ 64

-- `size` inside the loop, with the limit ctx->len and the bytes that are left.
unfoldable pub line_size : ℕ → ℕ → ℕ
line_size lim len = if ltb lim len && ltb 0 lim then lim else len

-- The loop, with the size of the buffer: the lines. `none` is a write outside the buffer, or no fuel.
unfoldable pub log_loop : ℕ → ℕ → Bytes → ℕ → Bytes → Option (List Bytes)
log_loop capacity lim pfx fuel [] = some []
log_loop capacity lim pfx zero (c ∷ str) = none
log_loop capacity lim pfx (suc fuel) (c ∷ str) =
    let size = line_size lim (length (c ∷ str)) in
    let rest = log_loop capacity lim pfx fuel (drop size (c ∷ str)) in
    if ltb capacity (length pfx + size)
    then none
    else rest >>= (λ lines. some ((pfx ++ take size (c ∷ str)) ∷ lines))

-- The size that is asked of malloc(), as a size_t
unfoldable pub buffer_size : ℕ → Bytes → Bytes → ℕ
buffer_size lim pfx str = ((if ltb 0 lim then lim else length str) + length pfx) % 2 ^ 64

-- `malloc` says whether malloc() gives memory of a size.
unfoldable pub bodyaccess_log : (ℕ → Bool) → ℕ → Bytes → Bytes → Option (List Bytes)
unfolding buffer_size
bodyaccess_log malloc lim pfx str =
    if malloc (buffer_size lim pfx str)
    then log_loop (buffer_size lim pfx str) lim pfx (length str) str
    else none
