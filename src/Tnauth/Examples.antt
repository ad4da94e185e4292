-- ===== src/Tnauth/Examples.antt =====
-- The coordination packets on concrete inputs.
use native.Mathlib.Nat.{mod-eq_of_lt, pow-suc, pow-zero}
use seestar_remote.Base.{
  ℕ, ◌-◌, ◌*◌, ◌%◌, ◌^◌, ◌≡◌, refl, ap, ◌∙◌, Option, none, some, List, [], ◌∷◌, ◌++◌, length, take,
  replicate, length-append, take-length_append, arith,
}
use seestar_remote.Base.Bytes.{Bytes, get_le16}
use seestar_remote.Kalay.Dtls.{Aead, IsAead}
use seestar_remote.Tnauth.{CoordAddr}
use seestar_remote.Tnauth.Auth.{
  MasterKey, set_bytes, fill_bytes, precheck_header, build_precheck, spki_prefix, parse_reply,
  reply_loop, bytes_equal, endpoint_at,
}
use seestar_remote.Tnauth.Auth.Master.{IsMaster, credentials, build_precheck-decrypt}
use seestar_remote.Tnauth.Auth.Replies.{IsFound, parse_reply-IsFound}
use seestar_remote.Tnauth.Relay.{RelayChannel, send_0204, decode}
use seestar_remote.Tnauth.Relay.Channel.{decode-send_0204}
use seestar_remote.Tnauth.Coord.{Coord103, parse_0103, lan_loop, build_0408}
use seestar_remote.Tnauth.Coord.Echo.{IsEcho, build_0408-parse_0103}

abbrev uid : Bytes
uid = 0x41 ∷ 0x42 ∷ []

abbrev token : Bytes
token = 1 ∷ 2 ∷ 3 ∷ 4 ∷ 5 ∷ 6 ∷ 7 ∷ 8 ∷ []

abbrev local : Option CoordAddr
local = some (record { family = 2; port = 40000; ip = 10 ∷ 0 ∷ 0 ∷ 7 ∷ [] })

abbrev table : List (Option CoordAddr)
table = local ∷ replicate 28 none

-- A cipher that only appends a tag, for each key.
abbrev toy : Bytes → Aead
toy key = record {
  seal = λ nonce pt aad. pt ++ replicate 16 0;
  unseal = λ nonce ct aad. some (take (length ct - 16) ct);
}

toy-IsAead : (key : Bytes) → IsAead (toy key)
toy-IsAead key = record {
  tagged = λ nonce pt aad. omega (arith, length-append pt (replicate {A = ℕ} 16 0));
  opens = λ nonce pt aad.
      let size : length (pt ++ replicate {A = ℕ} 16 0) - 16 ≡ length pt =
        omega (arith, length-append pt (replicate {A = ℕ} 16 0)) in
      ap (λ n. some (take n (pt ++ replicate 16 0))) size
      ∙ ap some (take-length_append (length pt) pt (replicate 16 0) refl);
}

abbrev device_uid : Bytes
device_uid = replicate 20 0x41

abbrev auth_key : Bytes
auth_key = replicate 12 0x42

abbrev sess_key : Bytes
sess_key = replicate 16 7

abbrev nonce : Bytes
nonce = replicate 12 9

-- An RSA key with exponent 1, which is its own inverse.
abbrev plain_key : MasterKey
plain_key = record { size = 88; modulus = 5 * 256 ^ 87; exponent = 1 }

once_power : (m : ℕ) → m ^ 1 ≡ m
once_power m = pow-suc m 0 ∙ ap (λ p. p * m) (pow-zero m) ∙ omega arith

plain_key-IsMaster : IsMaster plain_key (λ m. m)
plain_key-IsMaster = record {
  long = omega arith;
  fits = omega arith;
  large = omega arith;
  inverts = λ m h. ap (λ v. v % (5 * 256 ^ 87)) (once_power m) ∙ mod-eq_of_lt h;
}

build_precheck-decrypt_example :
    (ct : Bytes) × (build_precheck plain_key device_uid auth_key 513 sess_key nonce
      ≡ some (precheck_header ++ ct))
    × (fill_bytes 88 (set_bytes 0 ct) ≡ credentials device_uid auth_key 513 sess_key nonce ++ [])
build_precheck-decrypt_example =
    build_precheck-decrypt device_uid auth_key sess_key nonce 513 plain_key (λ m. m)
      plain_key-IsMaster refl refl refl refl (ground arith) (ground arith) (ground arith)
      (ground arith)

-- A reply with one relay.
abbrev reply : Bytes
reply = 0x0d ∷ 0x96 ∷ 10 ∷ 0 ∷ 0 ∷ 1 ∷ (replicate 8 0 ++ (spki_prefix ++ replicate 64 5))

parse_reply-IsFound_example : (spots : List ℕ) × IsFound reply 0 (parse_reply reply) spots
parse_reply-IsFound_example = parse_reply-IsFound reply

reply_out :
    parse_reply reply
    ≡ record { ip = some (10 ∷ 0 ∷ 0 ∷ 1 ∷ []); port = 3478; ecdh_pub = 0x04 ∷ replicate 64 5 } ∷ []
unfolding parse_reply reply_loop bytes_equal endpoint_at
reply_out = refl

abbrev channel : RelayChannel
channel = record { z = sess_key; nonce = nonce; hello = []; seq = 4294967295; uid = device_uid }

decode-send_0204_example :
    let (c', w) = send_0204 toy channel (3 ∷ []) in
    (decode toy channel w ≡ some (3 ∷ []))
    × (get_le16 w 6 ≡ length w - 12)
    × (c'.seq ≡ 4294967296 % 2 ^ 32)
decode-send_0204_example =
    decode-send_0204 toy channel channel (3 ∷ []) (toy-IsAead sess_key) refl refl (omega arith)
      (omega arith)

abbrev secret : Bytes
secret = replicate 32 6

abbrev eph_pub : Bytes
eph_pub = 0x04 ∷ replicate 64 8

abbrev answer_header : Bytes
answer_header = 0x51 ∷ 0xcc ∷ 0 ∷ 0 ∷ 0x02 ∷ 0x03 ∷ 0 ∷ 0 ∷ 0 ∷ 0 ∷ 0 ∷ 0 ∷ []

-- A 0103 with a public and a LAN record.
abbrev coordination : Bytes
coordination =
    replicate 8 0
    ++ (0x01
        ∷ 0x03
        ∷ (replicate 28 0
            ++ (0x9c
                ∷ 0x40
                ∷ 8
                ∷ 8
                ∷ 4
                ∷ 4
                ∷ 0x9c
                ∷ 0x40
                ∷ 192
                ∷ 168
                ∷ 1
                ∷ 9
                ∷ (token ++ (2 ∷ 0 ∷ 0 ∷ 0 ∷ 0 ∷ 0 ∷ 0 ∷ 0 ∷ [])))))

abbrev coordinated : Coord103
coordinated = record {
  token = token;
  dev_ip = 8 ∷ 8 ∷ 4 ∷ 4 ∷ [];
  dev_port = 40000;
  dev_lan = some (192 ∷ 168 ∷ 1 ∷ 9 ∷ []);
}

coordination_parsed : parse_0103 coordination ≡ some coordinated
unfolding parse_0103 lan_loop
coordination_parsed = refl

build_0408-parse_0103_example :
    IsEcho coordination coordinated
      (build_0408 device_uid (some coordinated) (some (10 ∷ 0 ∷ 0 ∷ 7 ∷ [])) 40000 none)
build_0408-parse_0103_example =
    build_0408-parse_0103 device_uid coordination (some (10 ∷ 0 ∷ 0 ∷ 7 ∷ [])) none 40000
      coordinated (ground arith) coordination_parsed
