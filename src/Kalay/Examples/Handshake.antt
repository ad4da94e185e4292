-- ===== src/Kalay/Examples/Handshake.antt =====
-- The key derivation and the reading of a ServerHello on concrete inputs.
use seestar_remote.Base.{
  ◌-◌, ◌≡◌, refl, true, some, List, [], ◌∷◌, ◌++◌, length, take, replicate, length-append,
  take-length_append, arith,
}
use seestar_remote.Base.Bytes.{Bytes}
use seestar_remote.Kalay.Session.{slot}
use seestar_remote.Kalay.Session.Layout.{length-slot}
use seestar_remote.Kalay.Prf.{p_hash}
use seestar_remote.Kalay.Prf.Blocks.{blocks, p_hash-blocks}
use seestar_remote.Kalay.Hello.{server_hello_has_ext}
use seestar_remote.Kalay.Hello.Extensions.{
  Extension, any_type, hello_body, server_hello_has_ext-any_type,
}
use seestar_remote.Kalay.Dtls.{Aead, IsAead, parse_dtls_records, seal_record, open_record}
use seestar_remote.Kalay.Handshake.{
  Keys, server_pub, panics, parse_ske, client_flight, finished_msg, any_finished,
}
use seestar_remote.Kalay.Handshake.Flight.{ske_of, parse_ske-fields}
use seestar_remote.Kalay.Handshake.Exchange.{flight_records, client_flight-opened}

-- A digest that is its message, padded.
abbrev digest : Bytes → Bytes → Bytes
digest secret msg = slot 32 (secret ++ msg)

p_hash-blocks_example :
    (p_hash digest (1 ∷ []) (2 ∷ []) 40 ≡ take 40 (blocks digest (1 ∷ []) (2 ∷ []) 2 (2 ∷ [])))
    × (length (p_hash digest (1 ∷ []) (2 ∷ []) 40) ≡ 40)
p_hash-blocks_example =
    p_hash-blocks digest (1 ∷ []) (2 ∷ []) (λ msg. length-slot 32 (1 ∷ msg)) 40 2 (omega arith)

-- Renegotiation info and the extended master secret.
abbrev extensions : List Extension
extensions = record { type = 0xff01; bytes = 0 ∷ [] } ∷ record { type = 0x17; bytes = [] } ∷ []

server_hello_has_ext-any_type_example :
    server_hello_has_ext
      (hello_body (replicate 34 3) (5 ∷ 6 ∷ []) (0 ∷ 0xa8 ∷ 0 ∷ []) extensions [])
      0x17
    ≡ any_type 0x17 extensions
server_hello_has_ext-any_type_example =
    server_hello_has_ext-any_type (replicate 34 3) (5 ∷ 6 ∷ []) (0 ∷ 0xa8 ∷ 0 ∷ []) extensions []
      0x17 refl (omega arith) refl (omega arith)
      ((omega arith, omega arith), ((omega arith, omega arith), tt))

-- A ServerKeyExchange with a hint of one byte, a key of two and a signature, and one of one byte.
parse_ske-fields_example :
    (parse_ske (ske_of (replicate 12 0) (7 ∷ []) (3 ∷ 0 ∷ 29 ∷ []) (8 ∷ 9 ∷ []) (1 ∷ []))
      ≡ server_pub (8 ∷ 9 ∷ []))
    × (parse_ske (12 ∷ []) ≡ panics)
parse_ske-fields_example =
    parse_ske-fields (replicate 12 0) (7 ∷ []) (3 ∷ 0 ∷ 29 ∷ []) (8 ∷ 9 ∷ []) (1 ∷ []) (12 ∷ [])
      refl (omega arith) refl (omega arith)

-- A cipher that only appends a tag.
abbrev tagged : Bytes → Aead
tagged key = record {
  seal = λ nonce pt aad. pt ++ replicate 16 0;
  unseal = λ nonce ctxt aad. some (take (length ctxt - 16) ctxt);
}

tagged-IsAead : (key : Bytes) → IsAead (tagged key)
tagged-IsAead key = record {
  tagged = λ nonce pt aad. length-append pt (replicate 16 0);
  opens = λ nonce pt aad.
      let size : length (pt ++ replicate 16 0) - 16 ≡ length pt =
        omega (arith, length-append pt (replicate 16 0)) in
      rw (size, take-length_append (length pt) pt (replicate 16 0) refl) refl;
}

abbrev keys : Keys
keys = record {
  client_key = 1 ∷ [];
  server_key = 2 ∷ [];
  client_iv = replicate 12 3;
  server_iv = replicate 12 4;
  master_secret = 5 ∷ [];
  session_hash = 6 ∷ [];
}

digest-size : (secret msg : Bytes) → length (digest secret msg) ≡ 32
digest-size secret msg = length-slot 32 (secret ++ msg)

client_flight-opened_example :
    (parse_dtls_records (client_flight digest tagged keys (9 ∷ []))
      ≡ flight_records digest digest-size tagged keys (9 ∷ []) (tagged-IsAead (1 ∷ [])))
    × (any_finished
          (tagged (1 ∷ []))
          keys.client_iv
          (flight_records digest digest-size tagged keys (9 ∷ []) (tagged-IsAead (1 ∷ [])))
        ≡ true)
    × (open_record
          (tagged (1 ∷ []))
          keys.client_iv
          1
          0
          0x16
          (seal_record (tagged (1 ∷ [])) keys.client_iv 1 0 0x16 (finished_msg digest keys))
        ≡ some (finished_msg digest keys))
    × (length (finished_msg digest keys) ≡ 24)
client_flight-opened_example =
    client_flight-opened digest digest-size tagged keys (9 ∷ []) (tagged-IsAead (1 ∷ []))
      (omega arith)
