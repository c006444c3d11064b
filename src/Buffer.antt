-- ===== src/Buffer.antt =====
-- The growing buffer of src/conn.c and inc/conn.h: `Buf_t`, `bufData`, `bufLen`, `bufCompact`,
-- `bufReserve`, `bufConsume`, `bufAppend`, `bufReset`, `bufFree`.
pub mod Growth
pub mod Append
pub mod Laws
pub mod Socket
pub mod Examples
use ws_server.Base.{
  ℕ, zero, suc, ◌+◌, ◌-◌, ◌*◌, ◌%◌, ◌^◌, Bool, true, false, not, ◌&&◌, List, [], ◌++◌,
  if◌then◌else◌, ltb, leb, ◌==◌, length, take, drop,
}

-- `p` holds the bytes of the block that were written so far.
pub record Buf : Type 0 where
  pub p : List ℕ
  pub cap : ℕ
  pub len : ℕ
  pub off : ℕ

-- A buffer of all zeroes, as `calloc` leaves it.
abbrev pub no_buf : Buf
no_buf = record { p = []; cap = 0; len = 0; off = 0 }

-- What lies from the pointer `bufData` on; the caller looks at `bufLen` bytes of it.
unfoldable pub buf_data : Buf → List ℕ
buf_data b = drop b.off b.p

unfoldable pub buf_len : Buf → ℕ
buf_len b = b.len - b.off

unfoldable pub buf_compact : Buf → Buf
buf_compact b =
    if b.off == 0
    then b
    else (let remain = b.len - b.off in
        record b { p = take remain (drop b.off b.p) ++ drop remain b.p; len = remain; off = 0 })

-- `while (newCap < need) newCap *= 2;` on 64 bits.
unfoldable pub grow : ℕ → ℕ → ℕ → ℕ
grow zero new_cap need = new_cap
grow (suc fuel) new_cap need = elim (ltb new_cap need) [
  | true ↦ grow fuel (new_cap * 2 % 2 ^ 64) need
  | false ↦ new_cap
]

-- The doubled capacity, cut to the hard cap; `realloc` keeps what fits the new block.
unfoldable pub buf_grow : (ℕ → Bool) → Buf → ℕ → ℕ → Buf × Bool
buf_grow realloc b extra hard_cap =
    let need = (b.len + extra) % 2 ^ 64 in
    let new_cap = grow 64 (if b.cap == 0 then 256 else b.cap) need in
    let capped = not (hard_cap == 0) && ltb hard_cap new_cap in
    let size = if capped then hard_cap else new_cap in
    if capped && ltb hard_cap need
    then (b, false)
    else if realloc size
    then (record b { p = take size b.p; cap = size }, true)
    else (b, false)

-- The Boolean tells the return of 0 from that of -1; `realloc` says which sizes the allocator gives.
unfoldable pub buf_reserve : (ℕ → Bool) → Buf → ℕ → ℕ → Buf × Bool
buf_reserve realloc b extra hard_cap =
    if leb extra (b.cap - b.len)
    then (b, true)
    else (let c = buf_compact b in
        if leb extra (c.cap - c.len) then (c, true) else buf_grow realloc c extra hard_cap)

unfoldable pub buf_consume : Buf → ℕ → Buf
buf_consume b n =
    if leb b.len (b.off + n) then record b { len = 0; off = 0 } else record b { off = b.off + n }

-- `memcpy(b->p + b->len, data, n); b->len += n;`
unfoldable pub buf_write : Buf → List ℕ → Buf
buf_write b data' = record b {
  p = take b.len b.p ++ (data' ++ drop (b.len + length data') b.p);
  len = b.len + length data';
}

unfoldable pub buf_append : (ℕ → Bool) → Buf → List ℕ → Buf
buf_append realloc b data' =
    if length data' == 0
    then b
    else (let (c, reserved) = buf_reserve realloc b (length data') 0 in
        if reserved then buf_write c data' else c)

unfoldable pub buf_reset : Buf → Buf
buf_reset b = record b { len = 0; off = 0 }

unfoldable pub buf_free : Buf → Buf
buf_free b = no_buf
