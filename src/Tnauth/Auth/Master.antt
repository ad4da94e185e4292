-- ===== src/Tnauth/Auth/Master.antt =====
-- internal/tnauth/tnauth.go: that the master, who can invert the RSA operation, reads the credentials.
use native.Mathlib.Nat.{pow-suc, mod-lt}
use seestar_remote.Base.{
  ℕ, zero, suc, ◌+◌, ◌-◌, ◌*◌, ◌/◌, ◌%◌, ◌^◌, ◌≤◌, ◌<◌, ◌≡◌, refl, sym, ap, ap₂, ◌∙◌, true, some,
  [], ◌∷◌, ◌++◌, ◌==◌, length, take, drop, replicate, length-append, All-append, arith,
}
use seestar_remote.Base.Bytes.{Bytes, IsByte, IsBytes, byte}
use seestar_remote.Kalay.Session.{slot}
use seestar_remote.Kalay.Session.Layout.{length-slot, slot-IsBytes, slot-full}
use seestar_remote.Tnauth.Auth.{
  MasterKey, set_bytes, fill_bytes, raw_rsa, rsa_encrypt, tail_suffix, credential_tail,
  auth_blob_header, precheck_header, build_auth_blob, build_precheck,
}

-- A list that is not empty, by its last element.
last_split :
    (n : ℕ) (bs : Bytes)
    → length bs ≡ suc n
    → (xs : Bytes) × (x : ℕ) × (bs ≡ xs ++ (x ∷ [])) × (length xs ≡ n)
last_split n [] h = absurd (omega arith)
last_split zero (b ∷ []) h = ([], b, refl, refl)
last_split (suc n) (b ∷ []) h = absurd (omega arith)
last_split zero (b ∷ c ∷ bs) h = absurd (omega arith)
last_split (suc n) (b ∷ c ∷ bs) h =
    let (xs, x, e, l) = last_split n (c ∷ bs) (omega arith) in
    (b ∷ xs, x, ap (◌∷◌ b) e, omega arith)

all_snoc : (xs : Bytes) (x : ℕ) → IsBytes (xs ++ (x ∷ [])) → IsBytes xs × IsByte x
all_snoc [] x (h, _) = (tt, h)
all_snoc (y ∷ xs) x (h, hs) = let (front, end) = all_snoc xs x hs in ((h, front), end)

set_bytes-snoc :
    (v : ℕ) (xs : Bytes) (x : ℕ) → set_bytes v (xs ++ (x ∷ [])) ≡ set_bytes v xs * 256 + x
unfolding set_bytes
set_bytes-snoc v [] x = refl
set_bytes-snoc v (y ∷ xs) x = set_bytes-snoc (v * 256 + y) xs x

-- The digits of a number, and the number of the digits.
set-fill_bytes : (k v : ℕ) → v < 256 ^ k → set_bytes 0 (fill_bytes k v) ≡ v
unfolding fill_bytes
set-fill_bytes zero v h = unfold set_bytes in omega arith
set-fill_bytes (suc k) v h =
    let below = set-fill_bytes k (v / 256) (omega (arith, pow-suc 256 k)) in
    set_bytes-snoc 0 (fill_bytes k (v / 256)) (byte v) ∙ omega (arith, below)

fill-set_bytes :
    (k : ℕ) (bs : Bytes) → length bs ≡ k → IsBytes bs → fill_bytes k (set_bytes 0 bs) ≡ bs
unfolding fill_bytes
fill-set_bytes zero [] e h = refl
fill-set_bytes zero (b ∷ bs) e h = absurd (omega arith)
fill-set_bytes (suc k) bs e h =
    let (xs, x, split, l) = last_split k bs e in
    let (front, end) = all_snoc xs x (rw split at h) in
    let number : set_bytes 0 bs ≡ set_bytes 0 xs * 256 + x =
      ap (set_bytes 0) split ∙ set_bytes-snoc 0 xs x in
    let high : set_bytes 0 bs / 256 ≡ set_bytes 0 xs = omega (arith, number) in
    let low : byte (set_bytes 0 bs) ≡ x = omega (arith, number) in
    ap₂ (λ a b. fill_bytes k a ++ (b ∷ [])) high low
    ∙ ap (λ front'. front' ++ (x ∷ [])) (fill-set_bytes k xs l front)
    ∙ sym split

-- A number whose first digit is 4.
lead_below : (n : ℕ) (bs : Bytes) → length bs ≡ n → IsBytes bs → set_bytes 4 bs < 5 * 256 ^ n
lead_below zero [] e h = unfold set_bytes in omega arith
lead_below zero (b ∷ bs) e h = absurd (omega arith)
lead_below (suc n) bs e h =
    let (xs, x, split, l) = last_split n bs e in
    let (front, end) = all_snoc xs x (rw split at h) in
    let below = lead_below n xs l front in
    let number : set_bytes 4 bs ≡ set_bytes 4 xs * 256 + x =
      ap (set_bytes 4) split ∙ set_bytes-snoc 4 xs x in
    omega (arith, number, below, pow-suc 256 n)

take-replicate : (n k : ℕ) → n ≤ k → take n (replicate {A = ℕ} k 0) ≡ replicate n 0
take-replicate zero k h = refl
take-replicate (suc n) zero h = absurd (omega arith)
take-replicate (suc n) (suc k) h = ap (◌∷◌ 0) (take-replicate n k (omega arith))

take-pad :
    (n k : ℕ) (b : Bytes)
    → length b ≤ n
    → n ≤ k
    → take n (b ++ replicate k 0) ≡ b ++ replicate (n - length b) 0
take-pad n k [] h h' = let e : n - 0 ≡ n = omega arith in rw e (take-replicate n k h')
take-pad zero k (x ∷ b) h h' = absurd (omega arith)
take-pad (suc n) k (x ∷ b) h h' =
    let e : suc n - suc (length b) ≡ n - length b = omega arith in
    rw e (ap (◌∷◌ x) (take-pad n k b (omega arith) (omega arith)))

slot-pad : (n : ℕ) (b : Bytes) → length b ≤ n → slot n b ≡ b ++ replicate (n - length b) 0
unfolding slot
slot-pad n b h = take-pad n n b h (omega arith)

-- The master's key, and what the master does with a ciphertext.
pub record IsMaster (key : MasterKey) (decrypt : ℕ → ℕ) : Type 0 where
  pub long : 88 ≤ key.size
  pub fits : key.modulus ≤ 256 ^ key.size
  pub large : 5 * 256 ^ (key.size - 1) ≤ key.modulus
  pub inverts : (m : ℕ) → m < key.modulus → decrypt (m ^ key.exponent % key.modulus) ≡ m

-- The credential blob of a device and a session, field by field.
abbrev pub credentials : Bytes → Bytes → ℕ → Bytes → Bytes → Bytes
credentials uid auth_key sess_id sess_key nonce =
    auth_blob_header
    ++ ((byte sess_id ∷ byte (sess_id / 2 ^ 8) ∷ 0 ∷ 0 ∷ [])
        ++ (sess_key ++ (nonce ++ (uid ++ (auth_key ++ tail_suffix)))))

set_bytes-lead : (bs : Bytes) → set_bytes 0 (0x04 ∷ bs) ≡ set_bytes 4 bs
unfolding set_bytes
set_bytes-lead bs = refl

-- A blob's first byte keeps its number below the modulus.
blob-slot :
    (key : MasterKey) (decrypt : ℕ → ℕ) (rest : Bytes)
    → IsMaster key decrypt
    → let blob = 0x04 ∷ rest in
      length blob ≤ 88
      → IsBytes rest
      → (slot key.size blob ≡ blob ++ replicate (key.size - length blob) 0)
        × (set_bytes 0 (slot key.size blob) < key.modulus)
blob-slot key decrypt rest h short bytes =
    let pad : Bytes = replicate (key.size - length (0x04 ∷ rest)) 0 in
    let block : slot key.size (0x04 ∷ rest) ≡ 0x04 ∷ (rest ++ pad) =
      slot-pad key.size (0x04 ∷ rest) (omega (arith, h.long)) in
    let all = slot-IsBytes key.size (0x04 ∷ rest) (omega arith, bytes) in
    let l : length (rest ++ pad) ≡ key.size - 1 =
      omega (arith, ap length block, length-slot key.size (0x04 ∷ rest)) in
    let below = lead_below (key.size - 1) (rest ++ pad) l ((rw block at all).1) in
    let number : set_bytes 0 (slot key.size (0x04 ∷ rest)) ≡ set_bytes 4 (rest ++ pad) =
      ap (set_bytes 0) block ∙ set_bytes-lead (rest ++ pad) in
    (block, omega (arith, number, below, h.large))

-- What a blob is after the raw operation and its inverse.
raw_rsa-decrypt :
    (key : MasterKey) (decrypt : ℕ → ℕ) (rest : Bytes)
    → IsMaster key decrypt
    → let blob = 0x04 ∷ rest in
      length blob ≤ 88
      → IsBytes rest
      → (ct : Bytes) × (raw_rsa key blob true ≡ some ct)
        × (fill_bytes key.size (decrypt (set_bytes 0 ct))
            ≡ blob ++ replicate (key.size - length blob) 0)
unfolding raw_rsa
raw_rsa-decrypt key decrypt rest h short bytes =
    let blob = 0x04 ∷ rest in
    let k = key.size in
    let m = set_bytes 0 (slot k blob) in
    let (block, small) = blob-slot key decrypt rest h short bytes in
    let c = m ^ key.exponent % key.modulus in
    let reduced : c < key.modulus = mod-lt (m ^ key.exponent) (omega (arith, small)) in
    let fits : c < 256 ^ k = omega (arith, h.fits, reduced) in
    (
      fill_bytes k c,
      refl,
      ap (λ v. fill_bytes k (decrypt v)) (set-fill_bytes k c fits)
          ∙ ap (fill_bytes k) (h.inverts m small)
          ∙ fill-set_bytes k (slot k blob) (length-slot k blob)
              (slot-IsBytes k blob (omega arith, bytes))
          ∙ block,
    )

module _ (uid auth_key sess_key nonce : Bytes) (sess_id : ℕ) where
  length-credentials :
      length uid ≡ 20
      → length auth_key ≡ 12
      → length sess_key ≡ 16
      → length nonce ≡ 12
      → length (credentials uid auth_key sess_id sess_key nonce) ≡ 88
  length-credentials u a s n = omega (
    arith,
    length-append sess_key (nonce ++ (uid ++ (auth_key ++ tail_suffix))),
    length-append nonce (uid ++ (auth_key ++ tail_suffix)),
    length-append uid (auth_key ++ tail_suffix),
    length-append auth_key tail_suffix,
  )

  build_auth_blob-credentials :
      length uid ≡ 20
      → length auth_key ≡ 12
      → length sess_key ≡ 16
      → length nonce ≡ 12
      → build_auth_blob (uid ++ (auth_key ++ tail_suffix)) sess_id sess_key nonce
        ≡ some (credentials uid auth_key sess_id sess_key nonce)
  unfolding build_auth_blob
  build_auth_blob-credentials u a s n =
      let full : (length (uid ++ (auth_key ++ tail_suffix)) == 40) ≡ true =
        ground (
          arith,
          length-append uid (auth_key ++ tail_suffix),
          length-append auth_key tail_suffix,
        ) in
      rw (full, slot-full 16 sess_key s, slot-full 12 nonce n) refl

  credential_tail-whole :
      length uid ≡ 20
      → length auth_key ≡ 12
      → credential_tail uid auth_key ≡ some (uid ++ (auth_key ++ tail_suffix))
  unfolding credential_tail
  credential_tail-whole u a =
      let u' : (length uid == 20) ≡ true = ground arith in
      let a' : (length auth_key == 12) ≡ true = ground arith in rw (u', a') refl

  build_precheck-some :
      length uid ≡ 20
      → length auth_key ≡ 12
      → length sess_key ≡ 16
      → length nonce ≡ 12
      → (key : MasterKey) (ct : Bytes)
      → rsa_encrypt key (credentials uid auth_key sess_id sess_key nonce) ≡ some ct
      → build_precheck key uid auth_key sess_id sess_key nonce ≡ some (precheck_header ++ ct)
  unfolding build_precheck
  build_precheck-some u a s n key ct e =
      rw (build_precheck, credential_tail-whole u a, build_auth_blob-credentials u a s n, e) refl

  -- For a UID of 20 bytes, an authkey of 12, a session key of 16 and a nonce of 12, the precheck is the
  -- header and a ciphertext that a master who can invert the RSA operation decrypts to the credential
  -- blob, with every field at its place, padded with zeros to the size of the modulus.
  pub build_precheck-decrypt :
      (key : MasterKey) (decrypt : ℕ → ℕ)
      → IsMaster key decrypt
      → length uid ≡ 20
      → length auth_key ≡ 12
      → length sess_key ≡ 16
      → length nonce ≡ 12
      → IsBytes uid
      → IsBytes auth_key
      → IsBytes sess_key
      → IsBytes nonce
      → (ct : Bytes) × (build_precheck key uid auth_key sess_id sess_key nonce
          ≡ some (precheck_header ++ ct))
        × (fill_bytes key.size (decrypt (set_bytes 0 ct))
            ≡ credentials uid auth_key sess_id sess_key nonce ++ replicate (key.size - 88) 0)
  build_precheck-decrypt key decrypt h u a s n uid-IsBytes auth_key-IsBytes sess_key-IsBytes
        nonce-IsBytes =
      let blob = credentials uid auth_key sess_id sess_key nonce in
      let size = length-credentials u a s n in
      let behind = All-append IsByte sess_key _ sess_key-IsBytes (
        All-append IsByte nonce _ nonce-IsBytes (
          All-append IsByte uid _ uid-IsBytes
            (All-append IsByte auth_key tail_suffix auth_key-IsBytes (ground arith)))) in
      let (ct, e, opened) =
        raw_rsa-decrypt key decrypt (drop 1 blob) h (omega (arith, size))
          (ground (arith, behind)) in
      (
        ct,
        build_precheck-some u a s n key ct e,
        opened ∙ ap (λ j. blob ++ replicate (key.size - j) 0) size,
      )
