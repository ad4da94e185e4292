-- ===== src/Tnauth/Coord/Layout.antt =====
-- The parts of a packet, and the fields of a `coordSetup` packet.
use seestar_remote.Base.{
  ℕ, zero, suc, ◌+◌, ◌*◌, ◌≤◌, ◌<◌, ◌≡◌, refl, sym, ap, ◌∙◌, Option, none, List, [], ◌∷◌, ◌++◌,
  append_assoc, length, get_or, take, drop, length-take, length-drop, take-length_append,
  drop-length_append, drop-drop, arith,
}
use seestar_remote.Base.Bytes.{Bytes, IsBytes, at, uint16, be16}
use seestar_remote.Kalay.Session.{slot}
use seestar_remote.Kalay.Session.Layout.{length-slot}
use seestar_remote.Tnauth.{
  CoordAddr, coord_addr, addr_table, CoordSetup, coord_prefix, coord_middle, coord_setup,
}
use seestar_remote.Tnauth.Sizes.{length-coord_addr}
use seestar_remote.Tnauth.Coord.{part, ip_at}

-- A part of a concatenation.
part-behind : (xs ys : Bytes) (i j n : ℕ) → i ≡ length xs + j → part (xs ++ ys) i n ≡ part ys j n
part-behind xs ys i j n e =
    ap (λ k. part (xs ++ ys) k n) e
    ∙ ap (take n) (
        sym (drop-drop j (length xs) (xs ++ ys))
        ∙ ap (drop j) (drop-length_append (length xs) xs ys refl))

part-front : (xs ys : Bytes) (n : ℕ) → length xs ≡ n → part (xs ++ ys) 0 n ≡ xs
part-front xs ys n e = take-length_append n xs ys (sym e)

part-addr_table :
    (addrs : List (Option CoordAddr)) (rest : Bytes) (k : ℕ)
    → k < length addrs
    → part (addr_table addrs ++ rest) (16 * k) 16 ≡ coord_addr (get_or addrs k none)
unfolding addr_table
part-addr_table [] rest k h = absurd (omega arith)
part-addr_table (a ∷ addrs) rest zero h =
    ap (λ bs. part bs 0 16) (append_assoc (coord_addr a) (addr_table addrs) rest)
    ∙ part-front (coord_addr a) (addr_table addrs ++ rest) 16 (length-coord_addr a)
part-addr_table (a ∷ addrs) rest (suc k) h =
    ap (λ bs. part bs (16 * suc k) 16) (append_assoc (coord_addr a) (addr_table addrs) rest)
    ∙ part-behind (coord_addr a) (addr_table addrs ++ rest) (16 * suc k) (16 * k) 16
        (omega (arith, length-coord_addr a))
    ∙ part-addr_table addrs rest k (omega arith)

-- The fields of a `coordSetup` packet.
module _ (c : CoordSetup) where
  abbrev trail : Bytes
  trail = 0x2e ∷ 0x03 ∷ 0x00 ∷ 0x00 ∷ []

  abbrev from_token : Bytes
  from_token = slot 8 c.token ++ (addr_table c.addrs ++ trail)

  abbrev from_middle : Bytes
  from_middle = coord_middle c.dev_port ++ from_token

  coord_setup-middle : (i j n : ℕ) → i ≡ 36 + j → part (coord_setup c) i n ≡ part from_middle j n
  unfolding coord_setup
  coord_setup-middle i j n e =
      part-behind coord_prefix (slot 20 c.uid ++ from_middle) i (20 + j) n (omega arith)
      ∙ part-behind (slot 20 c.uid) from_middle (20 + j) j n (omega (arith, length-slot 20 c.uid))

  pub coord_setup-port : part (coord_setup c) 38 2 ≡ be16 (uint16 c.dev_port)
  coord_setup-port = coord_setup-middle 38 2 2 refl

  pub coord_setup-token : part (coord_setup c) 68 8 ≡ slot 8 c.token
  coord_setup-token =
      coord_setup-middle 68 32 8 refl
      ∙ part-behind (coord_middle c.dev_port) from_token 32 0 8 refl
      ∙ part-front (slot 8 c.token) (addr_table c.addrs ++ trail) 8 (length-slot 8 c.token)

  pub coord_setup-slot :
      (k : ℕ)
      → k < length c.addrs
      → part (coord_setup c) (76 + 16 * k) 16 ≡ coord_addr (get_or c.addrs k none)
  coord_setup-slot k h =
      coord_setup-middle (76 + 16 * k) (40 + 16 * k) 16 (omega arith)
      ∙ part-behind (coord_middle c.dev_port) from_token (40 + 16 * k) (8 + 16 * k) 16 (omega arith)
      ∙ part-behind (slot 8 c.token) (addr_table c.addrs ++ trail) (8 + 16 * k) (16 * k) 16
          (omega (arith, length-slot 8 c.token))
      ∙ part-addr_table c.addrs trail k h

pub at-IsByte : (pt : Bytes) (i : ℕ) → IsBytes pt → at pt i < 256
at-IsByte [] i h = omega arith
at-IsByte (b ∷ pt) zero h = h.0
at-IsByte (b ∷ pt) (suc i) h = at-IsByte pt i h.1

part-cons : (pt : Bytes) (i n : ℕ) → i < length pt → part pt i (suc n) ≡ at pt i ∷ part pt (i + 1) n
part-cons [] i n h = absurd (omega arith)
part-cons (b ∷ pt) zero n h = refl
part-cons (b ∷ pt) (suc i) n h =
    let e : suc i + 1 ≡ suc (i + 1) = omega arith in rw e (part-cons pt i n (omega arith))

pub length-part : (pt : Bytes) (i n : ℕ) → i + n ≤ length pt → length (part pt i n) ≡ n
length-part pt i n h = omega (arith, length-take n (drop i pt), length-drop i pt)

-- A port and the address behind it.
pub part-two : (pt : Bytes) (i : ℕ) → i + 2 ≤ length pt → part pt i 2 ≡ at pt i ∷ at pt (i + 1) ∷ []
part-two pt i h =
    part-cons pt i 1 (omega arith) ∙ ap (◌∷◌ (at pt i)) (part-cons pt (i + 1) 0 (omega arith))

pub part-four : (pt : Bytes) (i : ℕ) → i + 4 ≤ length pt → part pt i 4 ≡ ip_at pt i
part-four pt i h =
    part-cons pt i 3 (omega arith)
    ∙ ap (◌∷◌ (at pt i)) (
        part-cons pt (i + 1) 2 (omega arith)
        ∙ ap (◌∷◌ (at pt (i + 1))) (
            ap (λ k. part pt k 2) plus_two
            ∙ part-two pt (i + 2) (omega arith)
            ∙ ap (λ k. at pt (i + 2) ∷ at pt k ∷ []) plus_three))
  where
    plus_two : i + 1 + 1 ≡ i + 2
    plus_two = omega arith

    plus_three : i + 2 + 1 ≡ i + 3
    plus_three = omega arith
