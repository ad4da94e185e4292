-- ===== src/Kalay/Dtls.antt =====
-- kalay/dtls.go: DTLS records, the AEAD's nonce and additional data, and the sealing of RDT frames
-- in records that `sendRDT` and `readRDT` of kalay/tunnelconn.go do.
pub mod Records
pub mod Nonce
pub mod Sealed
use Prim.Native.Nat.{bit_xor}
use seestar_remote.Base.{
  ℕ, zero, suc, ◌+◌, ◌-◌, ◌*◌, ◌/◌, ◌%◌, ◌^◌, ◌≡◌, Bool, true, false, ◌&&◌, ◌||◌, not, Option, none,
  some, List, [], ◌∷◌, ◌++◌, ltb, leb, ◌==◌, if◌then◌else◌, length, get_or, set, take, drop,
  replicate,
}
use seestar_remote.Base.Bytes.{Bytes, at, byte, uint16, add64, be16, get_be16}
use seestar_remote.Base.Scan.{Body, scan}
use seestar_remote.Kalay.Rdt.{RdtPacket, append_rdt, parse_rdt_stream}

-- `DTLSRecord`
pub record DtlsRecord : Type 0 where
  pub ct : ℕ
  pub epoch : ℕ
  pub seq : ℕ
  pub body : Bytes

-- The six bytes of a sequence number, the highest first.
abbrev pub be48 : ℕ → Bytes
be48 seq =
    byte (seq / 2 ^ 40)
    ∷ byte (seq / 2 ^ 32)
    ∷ byte (seq / 2 ^ 24)
    ∷ byte (seq / 2 ^ 16)
    ∷ byte (seq / 2 ^ 8)
    ∷ byte seq
    ∷ []

abbrev pub get_be48 : Bytes → ℕ → ℕ
get_be48 b i =
    at b i * 2 ^ 40
    + at b (i + 1) * 2 ^ 32
    + at b (i + 2) * 2 ^ 24
    + at b (i + 3) * 2 ^ 16
    + at b (i + 4) * 2 ^ 8
    + at b (i + 5)

-- One round of `ParseDTLSRecords`: `none` is its `break` and the end of its loop.
unfoldable pub parse_dtls_record : Body DtlsRecord
parse_dtls_record b =
    if ltb (length b) 13
    then none
    else let l = get_be16 b 11 in
      if ltb (length b) (13 + l)
      then none
      else some (
        record { ct = at b 0; epoch = get_be16 b 3; seq = get_be48 b 5; body = take l (drop 13 b) }
            ∷ [],
        drop (13 + l) b,
      )

-- `ParseDTLSRecords`
unfoldable pub parse_dtls_records : Bytes → List DtlsRecord
unfolding parse_dtls_record scan
parse_dtls_records b = (scan parse_dtls_record b).0

abbrev pub dtls_header : ℕ → ℕ → ℕ → ℕ → Bytes
dtls_header ct epoch seq len = ct ∷ 0xfe ∷ 0xfd ∷ (be16 epoch ++ (be48 seq ++ be16 (uint16 len)))

-- `DTLSRecordRaw`
unfoldable pub dtls_record_raw : ℕ → ℕ → ℕ → Bytes → Bytes
dtls_record_raw ct epoch seq payload = dtls_header ct epoch seq (length payload) ++ payload

-- `DTLSHandshakeMsg`
unfoldable pub dtls_handshake_msg : ℕ → ℕ → Bytes → Bytes
dtls_handshake_msg typ msgseq body =
    let l = length body in
    (typ
      ∷ byte (l / 2 ^ 16)
      ∷ byte (l / 2 ^ 8)
      ∷ byte l
      ∷ byte (msgseq / 2 ^ 8)
      ∷ byte msgseq
      ∷ 0
      ∷ 0
      ∷ 0
      ∷ byte (l / 2 ^ 16)
      ∷ byte (l / 2 ^ 8)
      ∷ byte l
      ∷ [])
    ++ body

-- `PutDTLSSeq`, on a record of eleven bytes at least; Go panics on a shorter one.
unfoldable pub put_dtls_seq : Bytes → ℕ → Bytes
put_dtls_seq rec seq =
    set
      (set
        (set
          (set (set (set rec 5 (byte (seq / 2 ^ 40))) 6 (byte (seq / 2 ^ 32))) 7
            (byte (seq / 2 ^ 24)))
          8 (byte (seq / 2 ^ 16)))
        9 (byte (seq / 2 ^ 8)))
      10 (byte seq)

-- The loop of `AEADNonce`, its last `k` rounds.
unfoldable pub nonce_loop : ℕ → ℕ → Bytes → Bytes
nonce_loop zero sn n = n
nonce_loop (suc k) sn n =
    let i = 8 - suc k in
    nonce_loop k sn (set n (11 - i) (bit_xor (at n (11 - i)) (byte (sn / 2 ^ (8 * i)))))

-- `AEADNonce`
unfoldable pub aead_nonce : Bytes → ℕ → ℕ → Bytes
aead_nonce iv epoch seq = nonce_loop 8 (epoch * 2 ^ 48 + seq) (take 12 (iv ++ replicate 12 0))

-- `AEADAAD`
unfoldable pub aead_aad : ℕ → ℕ → ℕ → ℕ → Bytes
aead_aad epoch seq ct ln = be16 epoch ++ (be48 seq ++ (ct ∷ 0xfe ∷ 0xfd ∷ be16 (uint16 ln)))

-- The cipher of golang.org/x/crypto/chacha20poly1305 under one key, `Seal` and `Open`: nonce, text,
-- additional data.
pub record Aead : Type 0 where
  pub seal : Bytes → Bytes → Bytes → Bytes
  pub unseal : Bytes → Bytes → Bytes → Option Bytes

-- What its documentation promises: a sealed text is 16 bytes longer, and opens under the nonce and
-- the additional data that sealed it.
pub record IsAead (a : Aead) : Type 0 where
  pub tagged : (nonce pt aad : Bytes) → length (a.seal nonce pt aad) ≡ length pt + 16
  pub opens : (nonce pt aad : Bytes) → a.unseal nonce (a.seal nonce pt aad) aad ≡ some pt

-- `Seal`
unfoldable pub seal_record : Aead → Bytes → ℕ → ℕ → ℕ → Bytes → Bytes
seal_record a iv epoch seq ct pt =
    a.seal (aead_nonce iv epoch seq) pt (aead_aad epoch seq ct (length pt))

-- `Open`. The length of the text, `len(ctxt)-16`, may be negative; its low 16 bits count.
unfoldable pub open_record : Aead → Bytes → ℕ → ℕ → ℕ → Bytes → Option Bytes
open_record a iv epoch seq ct ctxt =
    a.unseal (aead_nonce iv epoch seq) ctxt (aead_aad epoch seq ct (length ctxt + 2 ^ 16 - 16))

-- `sendRDT`: the datagram it writes, and the next `appSeq`.
unfoldable pub send_rdt : Aead → Bytes → ℕ → RdtPacket → ℕ × Bytes
send_rdt a iv app_seq p =
    let sealed = seal_record a iv 1 app_seq 0x17 (append_rdt [] p) in
    (add64 app_seq 1, dtls_record_raw 0x17 1 app_seq sealed)

-- What `readRDT` makes of one record.
unfoldable pub open_rdt : Aead → Bytes → DtlsRecord → List RdtPacket
open_rdt a iv r = elim (open_record a iv r.epoch r.seq r.ct r.body) [
  | none ↦ []
  | some pt ↦ if not (r.epoch == 1) || not (r.ct == 0x17) then [] else parse_rdt_stream pt
]

unfoldable pub open_all : Aead → Bytes → List DtlsRecord → List RdtPacket
open_all a iv [] = []
open_all a iv (r ∷ rs) = open_rdt a iv r ++ open_all a iv rs

-- `readRDT`, on the datagrams that arrive before its deadline.
unfoldable pub read_rdt : Aead → Bytes → List Bytes → List RdtPacket
read_rdt a iv [] = []
read_rdt a iv (d ∷ ds) = open_all a iv (parse_dtls_records d) ++ read_rdt a iv ds
