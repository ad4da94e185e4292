-- ===== src/Kalay/Examples/Wire.antt =====
-- Frames, records and payloads on concrete inputs.
use seestar_remote.Base.{
  ℕ, ◌+◌, ◌-◌, ◌^◌, ◌≡◌, refl, some, List, [], ◌∷◌, ◌++◌, flatten, length, take, drop, replicate,
  arith, length-append, take-length_append,
}
use seestar_remote.Base.Bytes.{Bytes, IsBytes}
use seestar_remote.Kalay.Rdt.{RdtPacket, IsRdt, append_rdt, parse_rdt_stream}
use seestar_remote.Kalay.Rdt.Laws.{coalesce, parse_rdt_stream-coalesce}
use seestar_remote.Kalay.Channel.{feed, demux_pass, frame_tunnel, deframe_tunnel, data_chunk}
use seestar_remote.Kalay.Channel.Demux.{delivered, feed_any_cut, feed-framed}
use seestar_remote.Kalay.Channel.Chunks.{deframe-frame}
use seestar_remote.Kalay.Control.{encode_payload_data, decode_payload_data}
use seestar_remote.Kalay.Control.Payloads.{decode-encode_payload_data}
use seestar_remote.Kalay.Dtls.{DtlsRecord, Aead, IsAead, read_rdt}
use seestar_remote.Kalay.Dtls.Records.{IsDtls}
use seestar_remote.Kalay.Dtls.Nonce.{aead_nonce-injective}
use seestar_remote.Kalay.Dtls.Sealed.{datagrams, read_rdt-datagrams}

abbrev syn : RdtPacket
syn = record { type = 0x01; seq = 7; b16 = 0; conn_id = 1; payload = [] }

abbrev word : RdtPacket
word = record {
  type = 0x02;
  seq = 2 ^ 40 + 5;
  b16 = 1;
  conn_id = 9;
  payload = 0xaa ∷ 0xbb ∷ 0xcc ∷ [];
}

syn-IsRdt : IsRdt syn
syn-IsRdt = record {
  type_byte = omega arith;
  seq_word = omega arith;
  b16_byte = omega arith;
  conn_byte = omega arith;
  payload_fits = omega arith;
}

word-IsRdt : IsRdt word
word-IsRdt = record {
  type_byte = omega arith;
  seq_word = omega arith;
  b16_byte = omega arith;
  conn_byte = omega arith;
  payload_fits = omega arith;
}

parse_rdt_stream-coalesce_example :
    parse_rdt_stream (coalesce (syn ∷ word ∷ []) ++ take 21 (append_rdt [] word)) ≡ syn ∷ word ∷ []
unfolding append_rdt
parse_rdt_stream-coalesce_example =
    parse_rdt_stream-coalesce (syn ∷ word ∷ []) word 21 (syn-IsRdt, (word-IsRdt, tt)) word-IsRdt
      (omega arith)

-- Two chunks in three pieces, the second straddling the cuts.
abbrev pieces : List Bytes
pieces =
    (0x02 ∷ 0x01 ∷ 0x02 ∷ 0x00 ∷ 0x10 ∷ [])
    ∷ (0x11 ∷ 0x02 ∷ 0x03 ∷ [])
    ∷ (0x01 ∷ 0x00 ∷ 0x12 ∷ [])
    ∷ []

abbrev writes : List (ℕ × Bytes)
writes = (1, 0x10 ∷ 0x11 ∷ []) ∷ (3, 0x12 ∷ []) ∷ []

feed_any_cut_example : feed [] pieces ≡ demux_pass (flatten pieces)
feed_any_cut_example = feed_any_cut pieces

abbrev raw : Bytes
raw = 0x02 ∷ 0x01 ∷ 0x01 ∷ 0x00 ∷ 0x10 ∷ 0x02 ∷ []

abbrev more : Bytes
more = 0x01 ∷ 0x01 ∷ 0x00 ∷ 0x11 ∷ []

feed-framed_example : feed [] pieces ≡ ([], delivered writes)
unfolding data_chunk flatten
feed-framed_example =
    feed-framed writes pieces
      ((omega arith, omega arith, omega arith), ((omega arith, omega arith, omega arith), tt)) refl

deframe-frame_example : deframe_tunnel (frame_tunnel (5 ∷ 6 ∷ 7 ∷ []) 2) ≡ 5 ∷ 6 ∷ 7 ∷ []
deframe-frame_example = deframe-frame (5 ∷ 6 ∷ 7 ∷ []) 2

-- A payload of a block and a partial block.
abbrev clear : Bytes
clear = 0 ∷ 255 ∷ 16 ∷ 32 ∷ 64 ∷ 128 ∷ 1 ∷ 2 ∷ 3 ∷ 4 ∷ 5 ∷ 6 ∷ 7 ∷ 8 ∷ 9 ∷ 10 ∷ 11 ∷ 12 ∷ 13 ∷ []

clear-IsBytes : IsBytes clear
clear-IsBytes = ground arith

decode-encode_payload_data_example :
    (decode_payload_data (encode_payload_data clear) ≡ clear)
    × (drop 64 (encode_payload_data clear) ≡ drop 64 clear)
    × (length (encode_payload_data clear) ≡ length clear)
decode-encode_payload_data_example = decode-encode_payload_data clear clear-IsBytes

abbrev hello : DtlsRecord
hello = record { ct = 22; epoch = 0; seq = 1; body = 1 ∷ 2 ∷ 3 ∷ [] }

hello-IsDtls : IsDtls hello
hello-IsDtls = record {
  ct_byte = omega arith;
  epoch_word = omega arith;
  seq_48 = omega arith;
  body_fits = omega arith;
}

abbrev iv : Bytes
iv = 1 ∷ 2 ∷ 3 ∷ 4 ∷ 5 ∷ 6 ∷ 7 ∷ 8 ∷ 9 ∷ 10 ∷ 11 ∷ 12 ∷ []

aead_nonce-injective_example : (◌≡◌ {A = ℕ} 1 1) × (◌≡◌ {A = ℕ} 77 77)
aead_nonce-injective_example =
    aead_nonce-injective iv 1 77 1 77 (ground arith) refl (omega arith, omega arith)
      (omega arith, omega arith) refl

-- A cipher that only appends a tag of zeros.
abbrev tagging : Aead
tagging = record {
  seal = λ nonce pt aad. pt ++ replicate 16 0;
  unseal = λ nonce ctxt aad. some (take (length ctxt - 16) ctxt);
}

tagging-IsAead : IsAead tagging
tagging-IsAead = record {
  tagged = λ nonce pt aad. length-append pt (replicate 16 0);
  opens = λ nonce pt aad.
      let e : length (pt ++ replicate 16 0) - 16 ≡ length pt =
        omega (arith, length-append pt (replicate 16 0)) in
      rw (e, take-length_append (length pt) pt (replicate 16 0) refl) refl;
}

-- The second record arrives first, and twice.
abbrev arrivals : List (ℕ × RdtPacket)
arrivals = (1, word) ∷ (0, syn) ∷ (1, word) ∷ []

read_rdt-datagrams_example :
    read_rdt tagging iv (datagrams tagging iv arrivals) ≡ word ∷ syn ∷ word ∷ []
read_rdt-datagrams_example = read_rdt-datagrams tagging tagging-IsAead iv arrivals (
  (omega arith, word-IsRdt, omega arith),
  ((omega arith, syn-IsRdt, omega arith), ((omega arith, word-IsRdt, omega arith), tt)),
)
