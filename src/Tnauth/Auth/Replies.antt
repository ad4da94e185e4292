-- ===== src/Tnauth/Auth/Replies.antt =====
-- internal/tnauth/tnauth.go: what `DecodeReply` and `ParseReply` make of a master's reply.
use seestar_remote.Base.{
  ℕ, zero, suc, ◌+◌, ◌≤◌, ◌≡◌, refl, sym, ap, ◌∙◌, Bool, true, false, some, List, [], ◌∷◌, ◌++◌,
  map, ltb, leb, ◌==◌, if◌then◌else◌, length, take, drop, length-append, take-length_append,
  drop-length_append, Bool-cases, inl, inr, All, arith,
}
use seestar_remote.Base.Bytes.{Bytes}
use seestar_remote.Kalay.Dtls.{Aead, IsAead}
use seestar_remote.Tnauth.Auth.{
  decode_reply, RelayEndpoint, spki_prefix, bytes_equal, sub, endpoint_at, reply_loop, parse_reply,
}

-- A reply sealed under the session key and nonce of the request, with its twelve bytes of header as the
-- additional data, is decoded to its text.
pub decode_reply-seal :
    (gcm : Bytes → Aead) (header pt sess_key nonce : Bytes)
    → IsAead (gcm sess_key)
    → length header ≡ 12
    → decode_reply gcm (header ++ (gcm sess_key).seal nonce pt header) sess_key nonce ≡ some pt
unfolding decode_reply
decode_reply-seal gcm header pt sess_key nonce h twelve =
    let sealed = (gcm sess_key).seal nonce pt header in
    let long : ltb (length (header ++ sealed)) (12 + 16) ≡ false =
      ground (arith, length-append header sealed, h.tagged nonce pt header, twelve) in
    let head : take 12 (header ++ sealed) ≡ header =
      take-length_append 12 header sealed (sym twelve) in
    let body : drop 12 (header ++ sealed) ≡ sealed =
      drop-length_append 12 header sealed (sym twelve) in
    rw (long, head, body) (h.opens nonce pt header)

bytes_equal→≡ : (xs ys : Bytes) → bytes_equal xs ys ≡ true → xs ≡ ys
unfolding bytes_equal
bytes_equal→≡ [] [] e = refl
bytes_equal→≡ [] (y ∷ ys) e = cc
bytes_equal→≡ (x ∷ xs) [] e = cc
bytes_equal→≡ (x ∷ xs) (y ∷ ys) e = ground (arith, bytes_equal→≡ xs ys)

bytes_equal_refl : (xs : Bytes) → bytes_equal xs xs ≡ true
unfolding bytes_equal
bytes_equal_refl [] = refl
bytes_equal_refl (x ∷ xs) = ground (arith, bytes_equal_refl xs)

-- A whole key stands at `i`.
abbrev pub IsKey : Bytes → ℕ → Type 0
IsKey pt i = (i + 91 ≤ length pt) × (sub pt i 27 ≡ spki_prefix)

-- Each at least 92 bytes behind the one before, from `i` on.
abbrev pub IsSpaced : ℕ → List ℕ → Type 0
IsSpaced i [] = Unit
IsSpaced i (s ∷ spots) = (i ≤ s) × IsSpaced (s + 92) spots

-- A position lies in the stretch of one of them.
abbrev pub is_within : List ℕ → ℕ → Bool
is_within [] j = false
is_within (s ∷ spots) j =
    if leb s j then (if ltb j (s + 92) then true else is_within spots j) else false

-- The endpoints are those of whole keys, and there is no other key, but for the stretch that the loop
-- skips behind each.
pub record IsFound (pt : Bytes) (i : ℕ) (out : List RelayEndpoint) (spots : List ℕ) : Type 0 where
  pub listed : out ≡ map (endpoint_at pt) spots
  pub keys : All (IsKey pt) spots
  pub spaced : IsSpaced i spots
  pub complete : (j : ℕ) → i ≤ j → IsKey pt j → is_within spots j ≡ true

module _ (pt : Bytes) where
  loop_over : (fuel i : ℕ) → leb (i + 27 + 64) (length pt) ≡ false → reply_loop (suc fuel) pt i ≡ []
  unfolding reply_loop
  loop_over fuel i e = rw e refl

  loop_past :
      (fuel i : ℕ)
      → leb (i + 27 + 64) (length pt) ≡ true
      → bytes_equal (sub pt i 27) spki_prefix ≡ false
      → reply_loop (suc fuel) pt i ≡ reply_loop fuel pt (i + 1)
  unfolding reply_loop
  loop_past fuel i e other = rw (e, other) refl

  loop_found :
      (fuel i : ℕ)
      → leb (i + 27 + 64) (length pt) ≡ true
      → bytes_equal (sub pt i 27) spki_prefix ≡ true
      → reply_loop (suc fuel) pt i ≡ endpoint_at pt i ∷ reply_loop fuel pt (i + (27 + 64) + 1)
  unfolding reply_loop
  loop_found fuel i e key = rw (e, key) refl

  IsSpaced-later : (i k : ℕ) (spots : List ℕ) → i ≤ k → IsSpaced k spots → IsSpaced i spots
  IsSpaced-later i k [] h spaced = tt
  IsSpaced-later i k (s ∷ spots) h (low, spaced) = (omega arith, spaced)

  reply_loop-IsFound :
      (fuel i : ℕ)
      → length pt ≤ i + fuel
      → (spots : List ℕ) × IsFound pt i (reply_loop fuel pt i) spots
  reply_loop-IsFound zero i enough = (
    [],
    record {
      listed = unfold reply_loop in refl;
      keys = tt;
      spaced = tt;
      complete = λ j low key. absurd (omega (arith, key.0));
    },
  )
  reply_loop-IsFound (suc fuel) i enough = elim (Bool-cases (leb (i + 27 + 64) (length pt))) [
    | inr over ↦ (
      [],
      record {
        listed = loop_over fuel i over;
        keys = tt;
        spaced = tt;
        complete = λ j low key. absurd (ground (arith, key.0));
      },
    )
    | inl room ↦ elim (Bool-cases (bytes_equal (sub pt i 27) spki_prefix)) [
      | inl e ↦
          let (spots, h) = reply_loop-IsFound fuel (i + (27 + 64) + 1) (omega arith) in
          (
            i ∷ spots,
            record {
              listed = loop_found fuel i room e ∙ ap (◌∷◌ (endpoint_at pt i)) h.listed;
              keys = ((ground arith, bytes_equal→≡ _ _ e), h.keys);
              spaced = (
                omega arith,
                IsSpaced-later (i + 92) (i + (27 + 64) + 1) spots (omega arith) h.spaced,
              );
              complete = λ j low key. elim (Bool-cases (ltb j (i + 92))) [
                | inl near ↦ ground arith
                | inr far ↦ let later = h.complete j (ground arith) key in ground arith
              ];
            },
          )
      | inr e ↦
          let (spots, h) = reply_loop-IsFound fuel (i + 1) (omega arith) in
          (
            spots,
            record {
              listed = loop_past fuel i room e ∙ h.listed;
              keys = h.keys;
              spaced = IsSpaced-later i (i + 1) spots (omega arith) h.spaced;
              complete = λ j low key. elim (Bool-cases (i == j)) [
                | inl here ↦
                    let same : i ≡ j = ground arith in
                    let yes : bytes_equal (sub pt i 27) spki_prefix ≡ true =
                      rw (same, key.1) (bytes_equal_refl spki_prefix) in
                    absurd (ground arith)
                | inr other ↦ h.complete j (ground arith) key
              ];
            },
          )
    ]
  ]

-- `ParseReply` returns the endpoints of whole keys of the text, in order and at least 92 bytes apart,
-- and every whole key stands less than 92 bytes behind the start of one of those.
pub parse_reply-IsFound : (pt : Bytes) → (spots : List ℕ) × IsFound pt 0 (parse_reply pt) spots
unfolding parse_reply
parse_reply-IsFound pt = reply_loop-IsFound pt (length pt) 0 (omega arith)
