-- ===== src/Kalay/Handshake.antt =====
-- kalay/tunnelconn.go: the handshake of `OpenTunnel`, from the server's flight to the client's. SHA-256,
-- HMAC, the key exchange and the cipher of a key are parameters, and sockets are the datagrams that
-- arrive.
pub mod Flight
pub mod Exchange
use seestar_remote.Base.{
  ℕ, ◌+◌, ◌/◌, ◌^◌, Bool, true, false, ◌&&◌, ◌||◌, not, Option, none, some, List, [], ◌∷◌, ◌++◌,
  ltb, leb, ◌==◌, if◌then◌else◌, length, take, drop,
}
use seestar_remote.Base.Bytes.{Bytes, at, byte, be16, get_be16}
use seestar_remote.Kalay.Dtls.{
  DtlsRecord, parse_dtls_records, dtls_record_raw, dtls_handshake_msg, Aead, seal_record,
  open_record,
}
use seestar_remote.Kalay.Prf.{prf}
use seestar_remote.Kalay.Hello.{server_hello_has_ext}

-- `b[i:j]`, in range.
abbrev pub slice : Bytes → ℕ → ℕ → Bytes
slice b i n = take n (drop i b)

-- The messages of the server's flight that have arrived.
pub record ServerFlight : Type 0 where
  pub sh_msg : Option Bytes
  pub ske_msg : Option Bytes
  pub shd_msg : Option Bytes

abbrev pub no_flight : ServerFlight
no_flight = record { sh_msg = none; ske_msg = none; shd_msg = none }

unfoldable pub collect_record : ServerFlight → DtlsRecord → ServerFlight
collect_record f r =
    if not (r.ct == 0x16) || ltb (length r.body) 1
    then f
    else if at r.body 0 == 2
    then record f { sh_msg = some r.body }
    else if at r.body 0 == 12
    then record f { ske_msg = some r.body }
    else if at r.body 0 == 14
    then record f { shd_msg = some r.body }
    else f

unfoldable pub collect : ServerFlight → List DtlsRecord → ServerFlight
collect f [] = f
collect f (r ∷ rs) = collect (collect_record f r) rs

abbrev pub is_some {ℓ} : {A : Type ℓ} → Option A → Bool
is_some none = false
is_some (some a) = true

abbrev pub is_whole : ServerFlight → Bool
is_whole f = is_some f.sh_msg && is_some f.ske_msg && is_some f.shd_msg

-- The reading loop, on the datagrams that arrive before its deadline.
unfoldable pub await_flight : ServerFlight → List Bytes → ServerFlight
await_flight f [] = f
await_flight f (d ∷ ds) =
    let rest = await_flight (collect f (parse_dtls_records d)) ds in if is_whole f then f else rest

-- What becomes of a ServerKeyExchange: the server's public key, an error, or a slice out of range,
-- which panics.
pub data SkeResult : Type 0 where
  server_pub : Bytes → SkeResult
  malformed_ske : SkeResult
  malformed_pub : SkeResult
  panics : SkeResult

unfoldable pub parse_ske : Bytes → SkeResult
parse_ske msg =
    let sb = drop 12 msg in
    let p = 2 + get_be16 sb 0 in
    let pk_len = at sb (p + 3) in
    if ltb (length msg) 14
    then panics
    else if ltb (length sb) (p + 4)
    then malformed_ske
    else if ltb (length sb) (p + 4 + pk_len)
    then malformed_pub
    else server_pub (slice sb (p + 4) pk_len)

-- The premaster secret of RFC 4279, and the ClientKeyExchange.
unfoldable pub premaster : Bytes → Bytes → Bytes
premaster z psk = be16 (length z) ++ (z ++ (be16 (length psk) ++ psk))

unfoldable pub cke_body : Bytes → Bytes → Bytes
cke_body identity my_pub = be16 (length identity) ++ (identity ++ (byte (length my_pub) ∷ my_pub))

abbrev pub cke_msg : Bytes → Bytes → Bytes
cke_msg identity my_pub = dtls_handshake_msg 16 1 (cke_body identity my_pub)

abbrev pub extended_master_secret : Bytes
extended_master_secret =
    0x65 ∷ 0x78 ∷ 0x74 ∷ 0x65 ∷ 0x6e ∷ 0x64 ∷ 0x65 ∷ 0x64 ∷ 0x20 ∷ 0x6d ∷ 0x61 ∷ 0x73 ∷ 0x74 ∷ 0x65
    ∷ 0x72 ∷ 0x20 ∷ 0x73 ∷ 0x65 ∷ 0x63 ∷ 0x72 ∷ 0x65 ∷ 0x74 ∷ []

abbrev pub master_secret_label : Bytes
master_secret_label =
    0x6d ∷ 0x61 ∷ 0x73 ∷ 0x74 ∷ 0x65 ∷ 0x72 ∷ 0x20 ∷ 0x73 ∷ 0x65 ∷ 0x63 ∷ 0x72 ∷ 0x65 ∷ 0x74 ∷ []

abbrev pub key_expansion : Bytes
key_expansion =
    0x6b ∷ 0x65 ∷ 0x79 ∷ 0x20 ∷ 0x65 ∷ 0x78 ∷ 0x70 ∷ 0x61 ∷ 0x6e ∷ 0x73 ∷ 0x69 ∷ 0x6f ∷ 0x6e ∷ []

abbrev pub client_finished : Bytes
client_finished =
    0x63 ∷ 0x6c ∷ 0x69 ∷ 0x65 ∷ 0x6e ∷ 0x74 ∷ 0x20 ∷ 0x66 ∷ 0x69 ∷ 0x6e ∷ 0x69 ∷ 0x73 ∷ 0x68 ∷ 0x65
    ∷ 0x64 ∷ []

pub record Keys : Type 0 where
  pub client_key : Bytes
  pub server_key : Bytes
  pub client_iv : Bytes
  pub server_iv : Bytes
  pub master_secret : Bytes
  pub session_hash : Bytes

module _ (sha256 : Bytes → Bytes) (hmac : Bytes → Bytes → Bytes) where
  -- The keys, of the premaster secret and the messages so far.
  unfoldable pub derive_keys : Bytes → Bytes → Bytes → Bytes → Bytes → Bytes → Keys
  derive_keys pms ch_msg sh_msg ske_msg shd_msg cke =
      let client_random = slice ch_msg 14 32 in
      let server_random = slice sh_msg 14 32 in
      let session_hash = sha256 (ch_msg ++ (sh_msg ++ (ske_msg ++ (shd_msg ++ cke)))) in
      let master_secret =
        if server_hello_has_ext (drop 12 sh_msg) 0x0017
        then prf hmac pms extended_master_secret session_hash 48
        else prf hmac pms master_secret_label (client_random ++ server_random) 48 in
      let key_block = prf hmac master_secret key_expansion (server_random ++ client_random) 88 in
      record {
        client_key = slice key_block 0 32;
        server_key = slice key_block 32 32;
        client_iv = slice key_block 64 12;
        server_iv = slice key_block 76 12;
        master_secret = master_secret;
        session_hash = session_hash;
      }

module _ (hmac : Bytes → Bytes → Bytes) where
  abbrev pub finished_msg : Keys → Bytes
  finished_msg k =
      dtls_handshake_msg 20 2 (prf hmac k.master_secret client_finished k.session_hash 12)

  -- The client's second flight; `chacha` is the cipher of a key.
  unfoldable pub client_flight : (Bytes → Aead) → Keys → Bytes → Bytes
  client_flight chacha k cke =
      let enc_fin = seal_record (chacha k.client_key) k.client_iv 1 0 0x16 (finished_msg k) in
      dtls_record_raw 0x16 0 1 cke
      ++ (dtls_record_raw 0x14 0 2 (0x01 ∷ []) ++ dtls_record_raw 0x16 1 0 enc_fin)

-- The server's Finished: a handshake record of epoch 1 that opens.
unfoldable pub is_finished : Aead → Bytes → DtlsRecord → Bool
is_finished a iv r =
    r.epoch == 1 && r.ct == 0x16 && is_some (open_record a iv r.epoch r.seq r.ct r.body)

unfoldable pub any_finished : Aead → Bytes → List DtlsRecord → Bool
any_finished a iv [] = false
any_finished a iv (r ∷ rs) = is_finished a iv r || any_finished a iv rs

unfoldable pub await_finished : Aead → Bytes → List Bytes → Bool
await_finished a iv [] = false
await_finished a iv (d ∷ ds) = any_finished a iv (parse_dtls_records d) || await_finished a iv ds
