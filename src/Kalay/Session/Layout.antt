-- ===== src/Kalay/Session/Layout.antt =====
-- The layouts of the control packets.
use seestar_remote.Base.{
  ℕ, zero, suc, ◌+◌, ◌<◌, ◌≡◌, refl, sym, ap, ◌∙◌, Option, none, some, [], ◌∷◌, ◌++◌, ◌==◌,
  if◌then◌else◌, length, set, replicate, All-append, All-take, length-append, length-take,
  length-replicate, take-length_append, Bool-cases, inl, inr, arith,
}
use seestar_remote.Base.Bytes.{Bytes, IsByte, IsBytes, at, byte}
use seestar_remote.Kalay.Control.Payloads.{decode-encode_payload, encode_payload_shape}
use seestar_remote.Kalay.Session.{
  slot, append_uid, addr_record, direct_packet, knock_packet, AddrSlots, build_direct, device_state,
  device_conn_state, unknown_direct_trailer, unknown_knock_trailer,
}

pub length-slot : (n : ℕ) (b : Bytes) → length (slot n b) ≡ n
unfolding slot
length-slot n b = omega (
  arith,
  length-take n (b ++ replicate n 0),
  length-append b (replicate n 0),
  length-replicate {A = ℕ} n 0,
)

-- A slot of the right size is what is copied to it.
pub slot-full : (n : ℕ) (b : Bytes) → length b ≡ n → slot n b ≡ b
unfolding slot
slot-full n b e = take-length_append n b (replicate n 0) (sym e)

zeros-IsBytes : (n : ℕ) → IsBytes (replicate n 0)
zeros-IsBytes zero = tt
zeros-IsBytes (suc n) = (omega arith, zeros-IsBytes n)

pub slot-IsBytes : (n : ℕ) (b : Bytes) → IsBytes b → IsBytes (slot n b)
unfolding slot
slot-IsBytes n b h =
    All-take IsByte n (b ++ replicate n 0) (All-append IsByte b (replicate n 0) h (zeros-IsBytes n))

pub set-IsBytes : (b : Bytes) (i v : ℕ) → IsBytes b → v < 256 → IsBytes (set b i v)
set-IsBytes [] i v h lt = tt
set-IsBytes (x ∷ b) zero v (hx, hb) lt = (lt, hb)
set-IsBytes (x ∷ b) (suc i) v (hx, hb) lt = (hx, set-IsBytes b i v hb lt)

pub length-set : (b : Bytes) (i v : ℕ) → length (set b i v) ≡ length b
length-set [] i v = refl
length-set (x ∷ b) zero v = refl
length-set (x ∷ b) (suc i) v = ap suc (length-set b i v)

-- A direct packet is 52 bytes, whatever the length of the UID, and holds the state at offset 8.
length-direct_packet :
    (state : ℕ) (uid token : Bytes)
    → length token ≡ 8
    → (length (direct_packet state uid token) ≡ 52) × (at (direct_packet state uid token) 8 ≡ state)
unfolding direct_packet append_uid
length-direct_packet state uid token e = (
  ground (
    arith,
    length-append (slot 20 uid) (token ++ ((0 ∷ 0 ∷ 0 ∷ 0 ∷ []) ++ unknown_direct_trailer)),
    length-append token ((0 ∷ 0 ∷ 0 ∷ 0 ∷ []) ++ unknown_direct_trailer),
    length-slot 20 uid,
  ),
  refl,
)

direct_packet-IsBytes :
    (state : ℕ) (uid token : Bytes)
    → state < 256
    → IsBytes uid
    → IsBytes token
    → IsBytes (direct_packet state uid token)
unfolding direct_packet append_uid
direct_packet-IsBytes state uid token small h h' =
    let zeros : IsBytes (0 ∷ 0 ∷ 0 ∷ 0 ∷ unknown_direct_trailer) = (
      omega arith,
      (
        omega arith,
        (
          omega arith,
          (omega arith, (omega arith, (omega arith, (omega arith, (omega arith, tt))))),
        ),
      ),
    ) in
    let tail =
      All-append IsByte (slot 20 uid) (token ++ 0 ∷ 0 ∷ 0 ∷ 0 ∷ unknown_direct_trailer)
        (slot-IsBytes 20 uid h)
        (All-append IsByte token (0 ∷ 0 ∷ 0 ∷ 0 ∷ unknown_direct_trailer) h' zeros) in
    (
      omega arith,
      (
        omega arith,
        (
          omega arith,
          (
            omega arith,
            (
              omega arith,
              (
                omega arith,
                (
                  omega arith,
                  (
                    omega arith,
                    (
                      omega arith,
                      (
                        omega arith,
                        (
                          omega arith,
                          (
                            omega arith,
                            (omega arith, (omega arith, (omega arith, (omega arith, tail)))),
                          ),
                        ),
                      ),
                    ),
                  ),
                ),
              ),
            ),
          ),
        ),
      ),
    )

-- The token of a direct packet: its first byte is one higher once the device is connected.
abbrev direct_token : ℕ → Bytes → Bytes
direct_token state token =
    let t = slot 8 token in if state == device_conn_state then set t 0 (byte (at t 0 + 1)) else t

direct_token_lem :
    (state : ℕ) (token : Bytes)
    → IsBytes token
    → (length (direct_token state token) ≡ 8) × IsBytes (direct_token state token)
direct_token_lem state token h =
    let t = slot 8 token in
    let sized = length-slot 8 token in
    let bytes = slot-IsBytes 8 token h in
    elim (Bool-cases (state == device_conn_state)) [
      | inl up ↦ simp up (
        length-set t 0 (byte (at t 0 + 1)) ∙ sized,
        set-IsBytes t 0 (byte (at t 0 + 1)) bytes (omega arith),
      )
      | inr plain ↦ simp plain (sized, bytes)
    ]

-- A direct packet on the wire is 52 bytes, and `deviceState` reads from it the state that it was
-- built with, for every state, UID and token.
pub device_state-build_direct :
    (state : ℕ) (token uid : Bytes)
    → state < 256
    → IsBytes token
    → IsBytes uid
    → (length (build_direct state token uid) ≡ 52)
      × (device_state (build_direct state token uid) ≡ state)
unfolding build_direct device_state
device_state-build_direct state token uid small h h' =
    let (sized, bytes) = direct_token_lem state token h in
    let p = direct_packet state uid (direct_token state token) in
    let (long, holds) = length-direct_packet state uid (direct_token state token) sized in
    let good = direct_packet-IsBytes state uid (direct_token state token) small h' bytes in
    ((encode_payload_shape p good).0 ∙ long, rw (decode-encode_payload p good) (simp long holds))

length-addr_record : (a : Option (Bytes × Bytes)) → length (addr_record a) ≡ 16
unfolding addr_record
length-addr_record none = refl
length-addr_record (some (prefix, ip)) = omega (
  arith,
  length-append (slot 4 prefix) (slot 4 ip ++ replicate 8 0),
  length-append (slot 4 ip) (replicate {A = ℕ} 8 0),
  length-slot 4 prefix,
  length-slot 4 ip,
)

-- A knock packet is 112 bytes, the 96 that its header announces and the header.
pub length-knock_packet :
    (uid : Bytes) (addrs : AddrSlots) (token : Bytes)
    → length token ≡ 8
    → length (knock_packet uid addrs token) ≡ 112
unfolding knock_packet append_uid
length-knock_packet uid (a0, a1, a2, a3) token e = omega (
  arith,
  length-append (slot 20 uid) (
      (addr_record a0 ++ (addr_record a1 ++ (addr_record a2 ++ addr_record a3)))
      ++ (token ++ unknown_knock_trailer)),
  length-append (addr_record a0 ++ (addr_record a1 ++ (addr_record a2 ++ addr_record a3)))
      (token ++ unknown_knock_trailer),
  length-append (addr_record a0) (addr_record a1 ++ (addr_record a2 ++ addr_record a3)),
  length-append (addr_record a1) (addr_record a2 ++ addr_record a3),
  length-append (addr_record a2) (addr_record a3),
  length-append token unknown_knock_trailer,
  length-slot 20 uid,
  length-addr_record a0,
  length-addr_record a1,
  length-addr_record a2,
  length-addr_record a3,
)
