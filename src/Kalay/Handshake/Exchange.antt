-- ===== src/Kalay/Handshake/Exchange.antt =====
-- What a server reads of the client's second flight.
use seestar_remote.Base.{
  ℕ, ◌*◌, ◌^◌, ◌≤◌, ◌<◌, ◌≡◌, sym, ap, ◌∙◌, true, some, List, [], ◌∷◌, ◌++◌, append-nil, length,
  All, arith,
}
use seestar_remote.Base.Bytes.{Bytes}
use seestar_remote.Kalay.Dtls.{
  DtlsRecord, parse_dtls_records, dtls_handshake_msg, Aead, IsAead, seal_record, open_record,
}
use seestar_remote.Kalay.Dtls.Records.{IsDtls, raw_of, datagram, parse-datagram}
use seestar_remote.Kalay.Dtls.Sealed.{open-seal_record}
use seestar_remote.Kalay.Prf.{prf}
use seestar_remote.Kalay.Prf.Blocks.{p_hash-blocks}
use seestar_remote.Kalay.Handshake.{
  client_finished, Keys, finished_msg, client_flight, is_finished, any_finished,
}

module _ (hmac : Bytes → Bytes → Bytes)
    (digest : (secret msg : Bytes) → length (hmac secret msg) ≡ 32) where
  length-prf :
      (secret label seed : Bytes) (n : ℕ) → n ≤ 32 * n → length (prf hmac secret label seed n) ≡ n
  unfolding prf
  length-prf secret label seed n many =
      (p_hash-blocks hmac secret (label ++ seed) (digest secret) n n many).1

  length-finished_msg : (k : Keys) → length (finished_msg hmac k) ≡ 24
  unfolding dtls_handshake_msg
  length-finished_msg k =
      omega (arith, length-prf k.master_secret client_finished k.session_hash 12 (omega arith))

  module _ (chacha : Bytes → Aead) (k : Keys) (cke : Bytes)
      (law : IsAead (chacha k.client_key)) where
    abbrev sealed_finished : Bytes
    sealed_finished = seal_record (chacha k.client_key) k.client_iv 1 0 0x16 (finished_msg hmac k)

    -- The three records of the flight.
    abbrev pub flight_records : List DtlsRecord
    flight_records =
        record { ct = 0x16; epoch = 0; seq = 1; body = cke }
        ∷ record { ct = 0x14; epoch = 0; seq = 2; body = 0x01 ∷ [] }
        ∷ record { ct = 0x16; epoch = 1; seq = 0; body = sealed_finished }
        ∷ []

    length-sealed_finished : length sealed_finished ≡ 40
    unfolding seal_record
    length-sealed_finished =
        law.tagged _ (finished_msg hmac k) _ ∙ omega (arith, length-finished_msg k)

    flight_records-IsDtls : length cke < 2 ^ 16 → All IsDtls flight_records
    flight_records-IsDtls short = (
      record {
        ct_byte = omega arith;
        epoch_word = omega arith;
        seq_48 = omega arith;
        body_fits = short;
      },
      (
        record {
          ct_byte = omega arith;
          epoch_word = omega arith;
          seq_48 = omega arith;
          body_fits = omega arith;
        },
        (
          record {
            ct_byte = omega arith;
            epoch_word = omega arith;
            seq_48 = omega arith;
            body_fits = omega (arith, length-sealed_finished);
          },
          tt,
        ),
      ),
    )

    client_flight-datagram : client_flight hmac chacha k cke ≡ datagram flight_records
    unfolding client_flight datagram
    client_flight-datagram =
        ap
          (λ b.
            raw_of (record { ct = 0x16; epoch = 0; seq = 1; body = cke })
            ++ (raw_of (record { ct = 0x14; epoch = 0; seq = 2; body = 0x01 ∷ [] }) ++ b))
          (sym (
            append-nil (raw_of (record { ct = 0x16; epoch = 1; seq = 0; body = sealed_finished }))))

    -- The client's second flight is one datagram of three records: the key exchange and the change of
    -- cipher in the clear, and a Finished of epoch 1 that whoever has derived the same client key opens,
    -- by the reading loop's own test, to the message with the verify data of twelve bytes.
    pub client_flight-opened :
        length cke < 2 ^ 16
        → (parse_dtls_records (client_flight hmac chacha k cke) ≡ flight_records)
          × (any_finished (chacha k.client_key) k.client_iv flight_records ≡ true)
          × (open_record (chacha k.client_key) k.client_iv 1 0 0x16 sealed_finished
              ≡ some (finished_msg hmac k))
          × (length (finished_msg hmac k) ≡ 24)
    unfolding any_finished is_finished
    client_flight-opened short =
        let opened =
          open-seal_record (chacha k.client_key) law k.client_iv 1 0 0x16 (finished_msg hmac k) in
        (
          ap parse_dtls_records client_flight-datagram
              ∙ parse-datagram flight_records (flight_records-IsDtls short),
          rw opened (ground arith),
          opened,
          length-finished_msg k,
        )
