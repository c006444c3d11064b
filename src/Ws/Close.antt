-- ===== src/Ws/Close.antt =====
-- `wsIsValidCloseCode` of src/ws.c.
use ws_server.Base.{ℕ, Bool, true, false, if◌then◌else◌, leb, ◌&&◌, ◌≡◌, ◌↔◌, ◌⊎◌, ◌≤◌, ◌≢◌, arith}

pub is_valid_close_code : ℕ → Bool
is_valid_close_code code =
    if leb 1000 code && leb code 1003
    then true
    else if leb 1007 code && leb code 1011
    then true
    else if leb 3000 code && leb code 4999
    then true
    else false

-- A code passes exactly when RFC 6455, 7.4 lets an endpoint send it: the ranges 1000-1011 without
-- the reserved 1004, 1005 and 1006, and 3000-4999.
pub is_valid_close_code_iff :
    (code : ℕ)
    → (is_valid_close_code code ≡ true) ↔ (
        ((1000 ≤ code) × (code ≤ 1011) × (code ≢ 1004) × (code ≢ 1005) × (code ≢ 1006))
        ⊎ ((3000 ≤ code) × (code ≤ 4999)))
unfolding is_valid_close_code
is_valid_close_code_iff code = ground arith
