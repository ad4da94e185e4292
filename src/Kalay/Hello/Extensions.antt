-- ===== src/Kalay/Hello/Extensions.antt =====
-- `serverHelloHasExt` on a ServerHello body made of its fields.
use seestar_remote.Base.{
  ℕ, zero, suc, ◌+◌, ◌/◌, ◌%◌, ◌^◌, ◌≤◌, ◌<◌, ◌≡◌, refl, sym, ap, ◌∙◌, Bool, true, false, ◌||◌,
  List, [], ◌∷◌, ◌++◌, append_assoc, ltb, leb, ◌==◌, length, length-append, All, arith,
}
use seestar_remote.Base.Bytes.{Bytes, at, be16, get_be16}
use seestar_remote.Kalay.Hello.{ext_loop, server_hello_has_ext}

-- An extension: its type and its data.
pub record Extension : Type 0 where
  pub type : ℕ
  pub bytes : Bytes

abbrev pub IsExtension : Extension → Type 0
IsExtension x = (x.type < 2 ^ 16) × (length x.bytes < 2 ^ 16)

abbrev pub encoded : List Extension → Bytes
encoded [] = []
encoded (x ∷ xs) = be16 x.type ++ (be16 (length x.bytes) ++ (x.bytes ++ encoded xs))

abbrev pub any_type : ℕ → List Extension → Bool
any_type want [] = false
any_type want (x ∷ xs) = x.type == want || any_type want xs

-- A body: 34 bytes of version and random, the session id, the cipher suite and compression, the
-- extensions, and what follows them.
abbrev pub hello_body : Bytes → Bytes → Bytes → List Extension → Bytes → Bytes
hello_body head session suite exts more =
    head
    ++ ((length session ∷ session)
        ++ (suite ++ (be16 (length (encoded exts)) ++ (encoded exts ++ more))))

pub at-behind : (xs ys : Bytes) (i : ℕ) → at (xs ++ ys) (length xs + i) ≡ at ys i
at-behind [] ys i = ap (at ys) (omega arith)
at-behind (x ∷ xs) ys i =
    let e : suc (length xs) + i ≡ suc (length xs + i) = omega arith in rw e (at-behind xs ys i)

pub be16-behind :
    (xs ys : Bytes) (v p : ℕ) → v < 2 ^ 16 → p ≡ length xs → get_be16 (xs ++ (be16 v ++ ys)) p ≡ v
be16-behind xs ys v p small e =
    let first : at (xs ++ (be16 v ++ ys)) p ≡ v / 2 ^ 8 % 256 =
      ap (at (xs ++ (be16 v ++ ys))) (the_place 0) ∙ at-behind xs (be16 v ++ ys) 0 in
    let second : at (xs ++ (be16 v ++ ys)) (p + 1) ≡ v % 256 =
      ap (at (xs ++ (be16 v ++ ys))) (the_next 0) ∙ at-behind xs (be16 v ++ ys) 1 in
    omega (arith, first, second)
  where
    the_place : ℕ → p ≡ length xs + 0
    the_place _ = omega arith

    the_next : ℕ → p + 1 ≡ length xs + 1
    the_next _ = omega arith

module _ (fuel : ℕ) (body : Bytes) (want end p : ℕ) where
  loop_end : leb (p + 4) end ≡ false → ext_loop (suc fuel) body want end p ≡ false
  unfolding ext_loop
  loop_end e = rw e refl

  loop_next :
      (t l : ℕ)
      → leb (p + 4) end ≡ true
      → leb (p + 4) (length body) ≡ true
      → get_be16 body p ≡ t
      → get_be16 body (p + 2) ≡ l
      → ext_loop (suc fuel) body want end p
        ≡ (t == want || ext_loop fuel body want end (p + (4 + l)))
  unfolding ext_loop
  loop_next t l within inside e e' = ground (arith, e, e')

-- The next extension, taken off the rest of the body.
ext_loop-cons :
    (fuel want p : ℕ) (front : Bytes) (x : Extension) (later : Bytes) (end : ℕ)
    → IsExtension x
    → p ≡ length front
    → p + 4 ≤ end
    → ext_loop
        (suc fuel)
        (front ++ (be16 x.type ++ (be16 (length x.bytes) ++ (x.bytes ++ later))))
        want
        end
        p
      ≡ (x.type == want
          || ext_loop fuel
              ((front ++ (be16 x.type ++ (be16 (length x.bytes) ++ x.bytes))) ++ later)
              want
              end
              (p + (4 + length x.bytes)))
ext_loop-cons fuel want p front x later end (small, short) e within =
    let tail = be16 (length x.bytes) ++ (x.bytes ++ later) in
    let body = front ++ (be16 x.type ++ tail) in
    let split : body ≡ (front ++ be16 x.type) ++ tail =
      sym (append_assoc front (be16 x.type) tail) in
    let whole : body ≡ (front ++ (be16 x.type ++ (be16 (length x.bytes) ++ x.bytes))) ++ later =
      sym (append_assoc front (be16 x.type ++ (be16 (length x.bytes) ++ x.bytes)) later) in
    let type : get_be16 body p ≡ x.type = be16-behind front tail x.type p small e in
    let size : get_be16 body (p + 2) ≡ length x.bytes =
      ap (λ b. get_be16 b (p + 2)) split
      ∙ be16-behind (front ++ be16 x.type) (x.bytes ++ later) (length x.bytes) (p + 2) short
          (omega (arith, e, length-append front (be16 x.type))) in
    let inside : leb (p + 4) (length body) ≡ true =
      ground (arith, length-append front (be16 x.type ++ tail), e) in
    loop_next fuel body want end p x.type (length x.bytes) (ground arith) inside type size
    ∙ ap (λ b. x.type == want || ext_loop fuel b want end (p + (4 + length x.bytes))) whole

ext_loop-any_type :
    (fuel want p end : ℕ) (front : Bytes) (exts : List Extension) (more : Bytes)
    → All IsExtension exts
    → p ≡ length front
    → end ≡ p + length (encoded exts)
    → length (encoded exts) < fuel
    → ext_loop fuel (front ++ (encoded exts ++ more)) want end p ≡ any_type want exts
ext_loop-any_type zero want p end front exts more good e e' enough = absurd (omega arith)
ext_loop-any_type (suc fuel) want p end front [] more good e e' enough =
    loop_end fuel (front ++ more) want end p (ground arith)
ext_loop-any_type (suc fuel) want p end front (x ∷ exts) more (one, good) e e' enough =
    let here = be16 x.type ++ (be16 (length x.bytes) ++ x.bytes) in
    let size = length-append x.bytes (encoded exts) in
    ap
      (λ b. ext_loop (suc fuel) (front ++ (be16 x.type ++ (be16 (length x.bytes) ++ b))) want end p)
      (append_assoc x.bytes (encoded exts) more)
    ∙ ext_loop-cons fuel want p front x (encoded exts ++ more) end one e (omega (arith, size))
    ∙ ap (λ b. x.type == want || b)
        (ext_loop-any_type fuel want (p + (4 + length x.bytes)) end (front ++ here) exts more good
          (omega (arith, e, length-append front here)) (omega (arith, size)) (omega (arith, size)))

has_ext_loop :
    (body : Bytes) (want total : ℕ)
    → ltb (length body) 38 ≡ false
    → ltb (length body) (35 + at body 34 + 3 + 2) ≡ false
    → get_be16 body (35 + at body 34 + 3) ≡ total
    → server_hello_has_ext body want
      ≡ ext_loop (length body) body want (35 + at body 34 + 3 + 2 + total) (35 + at body 34 + 3 + 2)
unfolding server_hello_has_ext
has_ext_loop body want total long room field = rw (long, room, field) refl

-- On a ServerHello body of well-formed fields, `serverHelloHasExt` is true exactly when an extension of
-- the wanted type is among those it lists, whatever bytes follow them.
pub server_hello_has_ext-any_type :
    (head session suite : Bytes) (exts : List Extension) (more : Bytes) (want : ℕ)
    → length head ≡ 34
    → length session < 256
    → length suite ≡ 3
    → length (encoded exts) < 2 ^ 16
    → All IsExtension exts
    → server_hello_has_ext (hello_body head session suite exts more) want ≡ any_type want exts
server_hello_has_ext-any_type head session suite exts more want h s t small good =
    let body = hello_body head session suite exts more in
    let total = length (encoded exts) in
    let tail = be16 total ++ (encoded exts ++ more) in
    let front = head ++ ((length session ∷ session) ++ suite) in
    let split : body ≡ front ++ tail =
      ap (λ b. head ++ b) (sym (append_assoc (length session ∷ session) suite tail))
      ∙ sym (append_assoc head ((length session ∷ session) ++ suite) tail) in
    let whole : body ≡ (front ++ be16 total) ++ (encoded exts ++ more) =
      split ∙ sym (append_assoc front (be16 total) (encoded exts ++ more)) in
    let sid : at body 34 ≡ length session = at_session in
    let l : length front ≡ 38 + length session = omega (
      arith,
      h,
      t,
      length-append head ((length session ∷ session) ++ suite),
      length-append session suite,
    ) in
    let l' : length (front ++ be16 total) ≡ 40 + length session =
      omega (arith, l, length-append front (be16 total)) in
    let size : length body ≡ 40 + length session + total + length more =
      ap length whole
      ∙ omega (
        arith,
        l',
        length-append (front ++ be16 total) (encoded exts ++ more),
        length-append (encoded exts) more,
      ) in
    let field : get_be16 body (35 + at body 34 + 3) ≡ total =
      ap (λ b. get_be16 b (35 + at body 34 + 3)) split
      ∙ be16-behind front (encoded exts ++ more) total (35 + at body 34 + 3) small
          (omega (arith, l, sid)) in
    has_ext_loop body want total (ground (arith, size)) (ground (arith, size, sid)) field
    ∙ ap
        (λ b.
          ext_loop (length body) b want (35 + at body 34 + 3 + 2 + total) (35 + at body 34 + 3 + 2))
        whole
    ∙ ext_loop-any_type (length body) want (35 + at body 34 + 3 + 2)
        (35 + at body 34 + 3 + 2 + total) (front ++ be16 total) exts more good
        (omega (arith, l', sid)) refl (omega (arith, size))
  where
    at_session : at (hello_body head session suite exts more) 34 ≡ length session
    at_session =
        ap (at (hello_body head session suite exts more)) (omega (arith, h))
        ∙ at-behind head
            ((length session ∷ session)
              ++ (suite ++ (be16 (length (encoded exts)) ++ (encoded exts ++ more))))
            0
