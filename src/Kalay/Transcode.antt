-- ===== src/Kalay/Transcode.antt =====
-- kalay/transcode.go: the keyless bit permutation of IOTC packets.
pub mod Tables
pub mod Bits
pub mod Inverse
use Prim.Native.Nat.{bit_or}
use seestar_remote.Base.{
  ℕ, zero, suc, ◌+◌, ◌*◌, ◌/◌, ◌%◌, ◌^◌, List, [], ◌∷◌, ◌++◌, ◌==◌, if◌then◌else◌, length, get_or,
  set, take, drop, replicate,
}
use seestar_remote.Base.Bytes.{Bytes, at}
use Tables.{fwd_perm_bits, rev_perm_bits, fwd_rem_bits, rev_rem_bits}

-- Bit `i` of a buffer, lowest first in each byte: `src[i>>3]>>(uint(i)&7)&1`.
abbrev pub bit_at : Bytes → ℕ → ℕ
bit_at src i = at src (i / 8) / 2 ^ (i % 8) % 2

-- `dst[j>>3] |= 1 << (uint(j) & 7)`
abbrev pub set_bit : Bytes → ℕ → Bytes
set_bit dst j = set dst (j / 8) (bit_or (at dst (j / 8)) (2 ^ (j % 8)))

-- The loop of `applyBits` from bit `i` on, with its rounds left.
unfoldable pub apply_loop : ℕ → ℕ → Bytes → List ℕ → Bytes → Bytes
apply_loop zero i src perm dst = dst
apply_loop (suc rounds) i src perm dst =
    apply_loop rounds (i + 1) src perm
      (if bit_at src i == 1 then set_bit dst (get_or perm i 0) else dst)

-- `applyBits` into a buffer of the length of `src`, which it clears first.
unfoldable pub apply_bits : Bytes → List ℕ → Bytes
apply_bits src perm = apply_loop (length src * 8) 0 src perm (replicate (length src) 0)

-- `transcode` from a multiple of 16 bytes on, with the whole blocks left.
unfoldable pub transcode_from : ℕ → Bytes → List ℕ → List (List ℕ) → Bytes
transcode_from zero rest block_perm rem_perm =
    if length rest == 0 then [] else apply_bits rest (get_or rem_perm (length rest) [])
transcode_from (suc blocks) rest block_perm rem_perm =
    apply_bits (take 16 rest) block_perm ++ transcode_from blocks (drop 16 rest) block_perm rem_perm

-- `transcode`, `TransCode` and `ReverseTransCode`
unfoldable pub transcode : Bytes → List ℕ → List (List ℕ) → Bytes
transcode bytes block_perm rem_perm = transcode_from (length bytes / 16) bytes block_perm rem_perm

unfoldable pub trans_code : Bytes → Bytes
trans_code bytes = transcode bytes fwd_perm_bits fwd_rem_bits

unfoldable pub reverse_trans_code : Bytes → Bytes
reverse_trans_code bytes = transcode bytes rev_perm_bits rev_rem_bits
