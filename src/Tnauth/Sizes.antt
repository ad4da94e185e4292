-- ===== src/Tnauth/Sizes.antt =====
-- The packets have the sizes that the relay expects, for every UID, token and address.
use seestar_remote.Base.{
  ℕ, ◌+◌, ◌-◌, ◌*◌, ◌≡◌, refl, Option, none, some, List, [], ◌∷◌, ◌++◌, length, replicate,
  length-append, length-replicate, arith,
}
use seestar_remote.Base.Bytes.{Bytes}
use seestar_remote.Kalay.Session.{slot}
use seestar_remote.Kalay.Session.Layout.{length-slot}
use seestar_remote.Tnauth.{
  CoordAddr, coord_addr, addr_table, coord_middle, coord_setup, setup_header, pad_to, build000c,
  build1001, middle1002, build1002,
}

pub length-coord_addr : (a : Option CoordAddr) → length (coord_addr a) ≡ 16
unfolding coord_addr
length-coord_addr none = refl
length-coord_addr (some a) =
    omega (arith, length-append (slot 4 a.ip) (replicate {A = ℕ} 8 0), length-slot 4 a.ip)

pub length-addr_table :
    (recs : List (Option CoordAddr)) → length (addr_table recs) ≡ 16 * length recs
unfolding addr_table
length-addr_table [] = refl
length-addr_table (a ∷ recs) = omega (
  arith,
  length-append (coord_addr a) (addr_table recs),
  length-coord_addr a,
  length-addr_table recs,
)

-- The two 544-byte packets share their shape: a UID, a middle, a token, the table, and a trailer.
length-shape :
    (head uid middle token : Bytes) (recs : List (Option CoordAddr)) (trail : Bytes)
    → length (head ++ (slot 20 uid ++ (middle ++ (slot 8 token ++ (addr_table recs ++ trail)))))
      ≡ length head + 28 + length middle + 16 * length recs + length trail
length-shape head uid middle token recs trail = omega (
  arith,
  length-append head (slot 20 uid ++ (middle ++ (slot 8 token ++ (addr_table recs ++ trail)))),
  length-append (slot 20 uid) (middle ++ (slot 8 token ++ (addr_table recs ++ trail))),
  length-append middle (slot 8 token ++ (addr_table recs ++ trail)),
  length-append (slot 8 token) (addr_table recs ++ trail),
  length-append (addr_table recs) trail,
  length-slot 20 uid,
  length-slot 8 token,
  length-addr_table recs,
)

length-pad_to :
    (total : ℕ) (out : Bytes) → length (pad_to total out) ≡ length out + (total - length out)
length-pad_to total out = omega (
  arith,
  length-append out (replicate (total - length out) 0),
  length-replicate {A = ℕ} (total - length out) 0,
)

length-build000c : (uid token : Bytes) → length (build000c uid token) ≡ 64
unfolding build000c
length-build000c uid token = omega (
  arith,
  length-pad_to 64 (
      setup_header 0x020c 0x0024 64
      ++ (slot 20 uid ++ (slot 8 token ++ (0x3c ∷ 0x00 ∷ 0 ∷ 0 ∷ 0x05 ∷ 0x00 ∷ [])))),
  length-append (slot 20 uid) (slot 8 token ++ (0x3c ∷ 0x00 ∷ 0 ∷ 0 ∷ 0x05 ∷ 0x00 ∷ [])),
  length-append (slot 8 token) (0x3c ∷ 0x00 ∷ 0 ∷ 0 ∷ 0x05 ∷ 0x00 ∷ []),
  length-slot 20 uid,
  length-slot 8 token,
)

length-build1001 :
    (uid token : Bytes) (local : Option CoordAddr) → length (build1001 uid token local) ≡ 288
unfolding build1001
length-build1001 uid token local =
    let recs = local ∷ none ∷ none ∷ none ∷ [] in
    omega (
      arith,
      length-pad_to 288 (
          setup_header 0x0240 0x0034 288
          ++ (slot 20 uid ++ (addr_table recs ++ (slot 8 token ++ (0x02 ∷ 0x00 ∷ []))))),
      length-append (slot 20 uid) (addr_table recs ++ (slot 8 token ++ (0x02 ∷ 0x00 ∷ []))),
      length-append (addr_table recs) (slot 8 token ++ (0x02 ∷ 0x00 ∷ [])),
      length-append (slot 8 token) (0x02 ∷ 0x00 ∷ []),
      length-slot 20 uid,
      length-slot 8 token,
      length-addr_table recs,
    )

-- With the 29 slots of the address table, whichever of them are filled, and for every UID and token,
-- the four setup packets have the sizes that their headers announce: 64, 288, 544 and 544 bytes.
pub packet_sizes :
    (uid token : Bytes) (dev_port : ℕ) (local : Option CoordAddr) (addrs : List (Option CoordAddr))
    → length addrs ≡ 29
    → (length (build000c uid token) ≡ 64)
      × (length (build1001 uid token local) ≡ 288)
      × (length (build1002 uid token dev_port addrs) ≡ 544)
      × (length
            (coord_setup (record { uid = uid; dev_port = dev_port; token = token; addrs = addrs }))
          ≡ 544)
unfolding build1002 coord_setup
packet_sizes uid token dev_port local addrs full = (
  length-build000c uid token,
  length-build1001 uid token local,
  omega (
    arith,
    length-shape (setup_header 0x0806 0x0024 544) uid (middle1002 dev_port) token addrs
        (0xfa ∷ 0x01 ∷ 0x00 ∷ 0x00 ∷ []),
  ),
  omega (
    arith,
    length-shape (setup_header 0x0806 0x0024 544) uid (coord_middle dev_port) token addrs
        (0x2e ∷ 0x03 ∷ 0x00 ∷ 0x00 ∷ []),
  ),
)
