-- ===== src/Kalay/Dtls/Sealed.antt =====
-- RDT frames through the sealed records and back.
use seestar_remote.Base.{
  ℕ, ◌+◌, ◌-◌, ◌^◌, ◌<◌, ◌≡◌, refl, sym, ap, ◌∙◌, some, List, [], ◌∷◌, ◌++◌, append-nil, arith,
  length, take, All,
}
use seestar_remote.Base.Bytes.{uint16, Bytes}
use seestar_remote.Kalay.Rdt.{RdtPacket, IsRdt, append_rdt, parse_rdt_stream}
use seestar_remote.Kalay.Rdt.Laws.{coalesce, parse_rdt_stream-coalesce}
use seestar_remote.Kalay.Dtls.{
  DtlsRecord, parse_dtls_records, dtls_record_raw, aead_nonce, aead_aad, Aead, IsAead, seal_record,
  open_record, send_rdt, open_rdt, open_all, read_rdt,
}
use seestar_remote.Kalay.Dtls.Records.{datagram, parse-datagram}

-- A frame sent under a record number: the number fits its field, and the sealed frame its record.
abbrev pub IsSendable : ℕ × RdtPacket → Type 0
IsSendable (s, p) = (s < 2 ^ 48) × IsRdt p × (length p.payload + 36 < 2 ^ 16)

-- The datagrams that `sendRDT` writes for frames under record numbers.
abbrev pub datagrams : Aead → Bytes → List (ℕ × RdtPacket) → List Bytes
datagrams a iv [] = []
datagrams a iv ((s, p) ∷ sent) = (send_rdt a iv s p).1 ∷ datagrams a iv sent

abbrev pub frames : List (ℕ × RdtPacket) → List RdtPacket
frames [] = []
frames ((s, p) ∷ sent) = p ∷ frames sent

one_coalesced : (p : RdtPacket) → append_rdt [] p ≡ coalesce (p ∷ []) ++ take 0 (append_rdt [] p)
unfolding coalesce
one_coalesced p = sym (append-nil _ ∙ append-nil _)

-- Only the low 16 bits of a length stand in the additional data.
aead_aad_wraps : (epoch seq ct n : ℕ) → aead_aad epoch seq ct (n + 2 ^ 16) ≡ aead_aad epoch seq ct n
unfolding aead_aad
aead_aad_wraps epoch seq ct n = let e : uint16 (n + 2 ^ 16) ≡ uint16 n = omega arith in rw e refl

module _ (a : Aead) (law : IsAead a) (iv : Bytes) where
  -- What one key seals it opens, under the same numbers.
  pub open-seal_record :
      (epoch seq ct : ℕ) (pt : Bytes)
      → open_record a iv epoch seq ct (seal_record a iv epoch seq ct pt) ≡ some pt
  unfolding open_record seal_record
  open-seal_record epoch seq ct pt =
      let nonce = aead_nonce iv epoch seq in
      let aad = aead_aad epoch seq ct (length pt) in
      let e : length (a.seal nonce pt aad) + 2 ^ 16 - 16 ≡ length pt + 2 ^ 16 =
        omega (arith, law.tagged nonce pt aad) in
      ap (λ n. a.unseal nonce (a.seal nonce pt aad) (aead_aad epoch seq ct n)) e
      ∙ ap (a.unseal nonce (a.seal nonce pt aad)) (aead_aad_wraps epoch seq ct (length pt))
      ∙ law.opens nonce pt aad

  one_frame : (p : RdtPacket) → IsRdt p → parse_rdt_stream (append_rdt [] p) ≡ p ∷ []
  one_frame p h =
      ap parse_rdt_stream (one_coalesced p)
      ∙ parse_rdt_stream-coalesce (p ∷ []) p 0 (h, tt) h (unfold append_rdt in omega arith)

  sealed_length :
      (s : ℕ) (p : RdtPacket)
      → length (seal_record a iv 1 s 0x17 (append_rdt [] p)) ≡ length p.payload + 36
  unfolding seal_record append_rdt
  sealed_length s p = omega (
    arith,
    law.tagged (aead_nonce iv 1 s) (append_rdt [] p) (aead_aad 1 s 0x17 (length (append_rdt [] p))),
  )

  record_opened :
      (s : ℕ) (p : RdtPacket)
      → IsRdt p
      → open_rdt a iv (record {
        ct = 0x17;
        epoch = 1;
        seq = s;
        body = seal_record a iv 1 s 0x17 (append_rdt [] p);
      })
        ≡ p ∷ []
  unfolding open_rdt
  record_opened s p h = rw (open-seal_record 1 s 0x17 (append_rdt [] p), open_rdt) (one_frame p h)

  datagram_opened :
      (s : ℕ) (p : RdtPacket)
      → IsSendable (s, p)
      → open_all a iv (parse_dtls_records (send_rdt a iv s p).1) ≡ p ∷ []
  unfolding send_rdt open_all datagram
  datagram_opened s p (small, h, fits) =
      let sealed = seal_record a iv 1 s 0x17 (append_rdt [] p) in
      let r : DtlsRecord = record { ct = 0x17; epoch = 1; seq = s; body = sealed } in
      let e = sealed_length s p in
      let parsed = parse-datagram (r ∷ []) (
        record {
          ct_byte = omega arith;
          epoch_word = omega arith;
          seq_48 = small;
          body_fits = omega arith;
        },
        tt,
      ) in
      rw (← append-nil (dtls_record_raw 0x17 1 s sealed), parsed, record_opened s p h) refl

  -- For a cipher that opens what it has sealed: `readRDT` on any sequence of datagrams that
  -- `sendRDT` writes under that key, in any order of record numbers, returns the frames sealed in
  -- them, one each and in the order of the datagrams.
  pub read_rdt-datagrams :
      (sent : List (ℕ × RdtPacket))
      → All IsSendable sent
      → read_rdt a iv (datagrams a iv sent) ≡ frames sent
  unfolding read_rdt
  read_rdt-datagrams [] hs = refl
  read_rdt-datagrams ((s, p) ∷ sent) hs =
      rw (datagram_opened s p hs.0) (ap (◌∷◌ p) (read_rdt-datagrams sent hs.1))
