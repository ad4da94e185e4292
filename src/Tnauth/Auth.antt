-- ===== src/Tnauth/Auth.antt =====
-- internal/tnauth/tnauth.go: the credentials for a master, its precheck, and its reply. The master's
-- key is an argument, and AES-GCM under a key a parameter.
pub mod Master
pub mod Replies
use seestar_remote.Base.{
  ℕ, zero, suc, ◌+◌, ◌-◌, ◌*◌, ◌/◌, ◌%◌, ◌^◌, Bool, true, false, ◌&&◌, not, Option, none, some,
  List, [], ◌∷◌, ◌++◌, ltb, leb, ◌==◌, if◌then◌else◌, length, take, drop, replicate,
}
use seestar_remote.Base.Bytes.{Bytes, at, byte}
use seestar_remote.Kalay.Session.{slot}
use seestar_remote.Kalay.Dtls.{Aead}

-- An RSA public key: its modulus, the modulus's size in bytes, and its exponent.
pub record MasterKey : Type 0 where
  pub size : ℕ
  pub modulus : ℕ
  pub exponent : ℕ

-- `big.Int.SetBytes` and `big.Int.FillBytes`, big-endian.
unfoldable pub set_bytes : ℕ → Bytes → ℕ
set_bytes v [] = v
set_bytes v (b ∷ bs) = set_bytes (v * 256 + b) bs

unfoldable pub fill_bytes : ℕ → ℕ → Bytes
fill_bytes zero v = []
fill_bytes (suc k) v = fill_bytes k (v / 256) ++ (byte v ∷ [])

-- `rawRSA`; a message aligned right that is longer than the modulus panics.
unfoldable pub raw_rsa : MasterKey → Bytes → Bool → Option Bytes
raw_rsa key msg left_align =
    let k = key.size in
    let out = λ (block : Bytes). fill_bytes k (set_bytes 0 block ^ key.exponent % key.modulus) in
    if left_align
    then some (out (slot k msg))
    else if leb (length msg) k
    then some (out (replicate (k - length msg) 0 ++ msg))
    else none

abbrev pub rsa_encrypt : MasterKey → Bytes → Option Bytes
rsa_encrypt key msg = raw_rsa key msg true

abbrev pub tail_suffix : Bytes
tail_suffix = 0x6c ∷ 0x6e ∷ 0x39 ∷ 0x38 ∷ 0x06 ∷ 0x00 ∷ 0x00 ∷ 0x00 ∷ []

-- `credentialTail`
unfoldable pub credential_tail : Bytes → Bytes → Option Bytes
credential_tail uid auth_key =
    if not (length uid == 20)
    then none
    else if not (length auth_key == 12)
    then none
    else some (uid ++ (auth_key ++ tail_suffix))

abbrev pub auth_blob_header : Bytes
auth_blob_header =
    0x04 ∷ 0x02 ∷ 0x1d ∷ 0x00 ∷ 0x48 ∷ 0x00 ∷ 0x00 ∷ 0x00 ∷ 0x0b ∷ 0x10 ∷ 0x18 ∷ 0x00 ∷ 0x00 ∷ 0x00
    ∷ 0x00 ∷ 0x00 ∷ []

abbrev pub precheck_header : Bytes
precheck_header =
    0x51 ∷ 0xcc ∷ 0x00 ∷ 0x00 ∷ 0x02 ∷ 0x01 ∷ 0x00 ∷ 0x01 ∷ 0x00 ∷ 0x00 ∷ 0x00 ∷ 0x00 ∷ []

-- `BuildAuthBlobFixed`
unfoldable pub build_auth_blob : Bytes → ℕ → Bytes → Bytes → Option Bytes
build_auth_blob tail sess_id sess_key nonce =
    if not (length tail == 40)
    then none
    else some (
        auth_blob_header
        ++ ((byte sess_id ∷ byte (sess_id / 2 ^ 8) ∷ 0 ∷ 0 ∷ [])
            ++ (slot 16 sess_key ++ (slot 12 nonce ++ tail))))

-- `BuildPrecheck0201Fixed`
unfoldable pub build_precheck : MasterKey → Bytes → Bytes → ℕ → Bytes → Bytes → Option Bytes
build_precheck key uid auth_key sess_id sess_key nonce = elim (credential_tail uid auth_key) [
  | none ↦ none
  | some tail ↦ elim (build_auth_blob tail sess_id sess_key nonce) [
    | none ↦ none
    | some blob ↦ elim (rsa_encrypt key blob) [
      | none ↦ none
      | some ct ↦ some (precheck_header ++ ct)
    ]
  ]
]

-- `DecodeReply`; `gcm` is the AES-GCM of a key.
unfoldable pub decode_reply : (Bytes → Aead) → Bytes → Bytes → Bytes → Option Bytes
decode_reply gcm reply sess_key nonce =
    if ltb (length reply) (12 + 16)
    then none
    else (gcm sess_key).unseal nonce (drop 12 reply) (take 12 reply)

-- `RelayEndpoint`; an IP that was not set is `none`.
pub record RelayEndpoint : Type 0 where
  pub ip : Option Bytes
  pub port : ℕ
  pub ecdh_pub : Bytes

-- `p256SPKIPrefix`
abbrev pub spki_prefix : Bytes
spki_prefix =
    0x30 ∷ 0x59 ∷ 0x30 ∷ 0x13 ∷ 0x06 ∷ 0x07 ∷ 0x2a ∷ 0x86 ∷ 0x48 ∷ 0xce ∷ 0x3d ∷ 0x02 ∷ 0x01 ∷ 0x06
    ∷ 0x08 ∷ 0x2a ∷ 0x86 ∷ 0x48 ∷ 0xce ∷ 0x3d ∷ 0x03 ∷ 0x01 ∷ 0x07 ∷ 0x03 ∷ 0x42 ∷ 0x00 ∷ 0x04 ∷ []

-- `bytesEqual`, on slices of one length or not.
unfoldable pub bytes_equal : Bytes → Bytes → Bool
bytes_equal [] [] = true
bytes_equal [] (y ∷ ys) = false
bytes_equal (x ∷ xs) [] = false
bytes_equal (x ∷ xs) (y ∷ ys) = if not (x == y) then false else bytes_equal xs ys

-- `pt[i:i+n]`, in range.
abbrev pub sub : Bytes → ℕ → ℕ → Bytes
sub pt i n = take n (drop i pt)

-- The endpoint of the key at `i`.
unfoldable pub endpoint_at : Bytes → ℕ → RelayEndpoint
endpoint_at pt i = record {
  ip =
      if leb 12 i
      then some (at pt (i - 12) ∷ at pt (i - 11) ∷ at pt (i - 10) ∷ at pt (i - 9) ∷ [])
      else none;
  port = 3478;
  ecdh_pub = sub pt (i + 27 - 1) 65;
}

-- The loop of `ParseReply`, from `i` on.
unfoldable pub reply_loop : ℕ → Bytes → ℕ → List RelayEndpoint
reply_loop zero pt i = []
reply_loop (suc fuel) pt i =
    let found = bytes_equal (sub pt i 27) spki_prefix in
    let rest = reply_loop fuel pt (if found then i + (27 + 64) + 1 else i + 1) in
    if not (leb (i + 27 + 64) (length pt))
    then []
    else if not found
    then rest
    else endpoint_at pt i ∷ rest

-- `ParseReply`. Each iteration moves on by a byte at least.
unfoldable pub parse_reply : Bytes → List RelayEndpoint
parse_reply pt = reply_loop (length pt) pt 0
