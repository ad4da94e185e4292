-- ===== src/Kalay/Address/Found.antt =====
-- Every candidate is found, once.
use seestar_remote.Base.{
  ℕ, suc, ◌≤◌, ◌≡◌, refl, Bool, true, false, ◌||◌, Option, none, some, List, [], ◌∷◌, ◌++◌,
  if◌then◌else◌, Option-cases, inl, inr, arith,
}
use seestar_remote.Base.Bytes.{Bytes}
use seestar_remote.Kalay.Address.{
  AddrRecord, is_same, is_seen, candidate, visit, addr_loop, parse_addr_records,
}

abbrev pub is_at : AddrRecord → Option AddrRecord → Bool
is_at r none = false
is_at r (some s) = is_same s r

-- The record is the candidate at some offset.
abbrev pub occurs : AddrRecord → Bytes → Bool
occurs r [] = false
occurs r (b ∷ clear) = is_at r (candidate (b ∷ clear)) || occurs r clear

-- How often a record is listed.
abbrev pub times : AddrRecord → List AddrRecord → ℕ
times r [] = 0
times r (s ∷ out) = if is_same s r then suc (times r out) else times r out

is_seen-append :
    (r s : AddrRecord) (out : List AddrRecord)
    → is_seen r (out ++ (s ∷ [])) ≡ (is_seen r out || is_same s r)
is_seen-append r s [] = ground arith
is_seen-append r s (t ∷ out) = ground (arith, is_seen-append r s out)

times-append :
    (r s : AddrRecord) (out : List AddrRecord)
    → times r (out ++ (s ∷ [])) ≡ (if is_same s r then suc (times r out) else times r out)
times-append r s [] = refl
times-append r s (t ∷ out) = ground (arith, times-append r s out)

-- Records with the same key are seen together.
seen_alike :
    (r s : AddrRecord) (out : List AddrRecord) → is_same s r ≡ true → is_seen r out ≡ is_seen s out
seen_alike r s [] e = refl
seen_alike r s (t ∷ out) e = ground (arith, seen_alike r s out e)

unseen_times : (r : AddrRecord) (out : List AddrRecord) → is_seen r out ≡ false → times r out ≡ 0
unseen_times r [] e = refl
unseen_times r (s ∷ out) e = ground (arith, unseen_times r out)

visit-none :
    (out : List AddrRecord) (clear : Bytes) → candidate clear ≡ none → visit out clear ≡ out
unfolding visit
visit-none out clear e = rw (e, visit) refl

visit-some :
    (out : List AddrRecord) (clear : Bytes) (s : AddrRecord)
    → candidate clear ≡ some s
    → visit out clear ≡ (if is_seen s out then out else out ++ (s ∷ []))
unfolding visit
visit-some out clear s e = rw (e, visit) refl

is_seen-visit :
    (r : AddrRecord) (out : List AddrRecord) (clear : Bytes)
    → (is_seen r (visit out clear) ≡ (is_seen r out || is_at r (candidate clear)))
      × (times r out ≤ 1 → times r (visit out clear) ≤ 1)
is_seen-visit r out clear = elim (Option-cases (candidate clear)) [
  | inl e ↦ rw (visit-none out clear e, e) (ground arith, λ h. h)
  | inr (s, e) ↦ (
    ground (arith, visit-some out clear s e, e, is_seen-append r s out, seen_alike r s out),
    λ h. ground (
      arith,
      visit-some out clear s e,
      times-append r s out,
      seen_alike r s out,
      unseen_times r out,
    ),
  )
]

addr_loop_lem :
    (r : AddrRecord) (out : List AddrRecord) (clear : Bytes)
    → (is_seen r (addr_loop out clear) ≡ (is_seen r out || occurs r clear))
      × (times r out ≤ 1 → times r (addr_loop out clear) ≤ 1)
unfolding addr_loop
addr_loop_lem r out [] = (ground arith, λ h. h)
addr_loop_lem r out (b ∷ clear) =
    let (found, once) = is_seen-visit r out (b ∷ clear) in
    let (found', once') = addr_loop_lem r (visit out (b ∷ clear)) clear in
    (ground arith, λ h. once' (once h))

-- `ParseAddrRecords` returns exactly the records that are candidates at some offset of the payload,
-- and each of them once.
pub is_seen-parse_addr_records :
    (r : AddrRecord) (clear : Bytes)
    → (is_seen r (parse_addr_records clear) ≡ occurs r clear)
      × (times r (parse_addr_records clear) ≤ 1)
unfolding parse_addr_records
is_seen-parse_addr_records r clear =
    let (found, once) = addr_loop_lem r [] clear in (found, once (omega arith))
