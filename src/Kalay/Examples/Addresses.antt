-- ===== src/Kalay/Examples/Addresses.antt =====
-- Address candidates in a concrete payload.
use seestar_remote.Base.{◌≤◌, ◌≡◌, refl, [], ◌∷◌}
use seestar_remote.Base.Bytes.{Bytes}
use seestar_remote.Kalay.Address.{
  AddrRecord, is_seen, candidate, visit, addr_loop, parse_addr_records,
}
use seestar_remote.Kalay.Address.Found.{occurs, times, is_seen-parse_addr_records}

-- A stray byte, one record twice, and a record with port 0.
abbrev payload : Bytes
payload =
    0x02 ∷ 0x02 ∷ 0x00 ∷ 0x27 ∷ 0x10 ∷ 10 ∷ 0 ∷ 0 ∷ 7 ∷ 0x02 ∷ 0x00 ∷ 0x27 ∷ 0x10 ∷ 10 ∷ 0 ∷ 0 ∷ 7
    ∷ 0x02 ∷ 0x00 ∷ 0x00 ∷ 0x00 ∷ 10 ∷ 0 ∷ 0 ∷ 8 ∷ []

abbrev device : AddrRecord
device = record { ip0 = 10; ip1 = 0; ip2 = 0; ip3 = 7; port = 10000 }

is_seen-parse_addr_records_example :
    (is_seen device (parse_addr_records payload) ≡ occurs device payload)
    × (times device (parse_addr_records payload) ≤ 1)
is_seen-parse_addr_records_example = is_seen-parse_addr_records device payload

only_device : parse_addr_records payload ≡ device ∷ []
unfolding parse_addr_records addr_loop visit candidate
only_device = refl
