-- ===== src/Kalay/Hello.antt =====
-- kalay/tunnelconn.go: `serverHelloHasExt`.
pub mod Extensions
use seestar_remote.Base.{
  ℕ, zero, suc, ◌+◌, Bool, true, false, ◌&&◌, not, List, ltb, leb, ◌==◌, if◌then◌else◌, length,
}
use seestar_remote.Base.Bytes.{Bytes, at, get_be16}

-- The loop over the extensions, from `p` on. Each round moves on by four bytes at least.
unfoldable pub ext_loop : ℕ → Bytes → ℕ → ℕ → ℕ → Bool
ext_loop zero body want end p = false
ext_loop (suc fuel) body want end p =
    let rest = ext_loop fuel body want end (p + (4 + get_be16 body (p + 2))) in
    if not (leb (p + 4) end && leb (p + 4) (length body))
    then false
    else if get_be16 body p == want
    then true
    else rest

-- `serverHelloHasExt`
unfoldable pub server_hello_has_ext : Bytes → ℕ → Bool
server_hello_has_ext body want =
    let p = 35 + at body 34 + 3 in
    if ltb (length body) 38
    then false
    else if ltb (length body) (p + 2)
    then false
    else ext_loop (length body) body want (p + 2 + get_be16 body p) (p + 2)
