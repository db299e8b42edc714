-- ===== src/Ip/Ranges.antt =====
-- `CIPList` of src/AuthServer/IPList.cpp: the table of address ranges, the loop body of `Load` that
-- adds a range to it, and `IpExists`. The log lines of `Load` are left out.
pub mod Parse
pub mod Cover
pub mod Loaded
use game_login.Base.{
  ℕ, ◌+◌, ◌-◌, ◌*◌, ◌/◌, ◌%◌, ◌^◌, bit_or, Bool, true, false, List, [], ◌∷◌, ◌++◌, ltb, leb,
  if◌then◌else◌,
}

-- `IPRecord`: the addresses from `begin` up to and without `end`, each an `unsigned`.
pub record IpRecord : Type 0 where
  pub begin : ℕ
  pub end : ℕ

-- `(c1 << 24) | (c2 << 16) | c3 << 8 | c4` on `unsigned`.
unfoldable pub dotted : ℕ → ℕ → ℕ → ℕ → ℕ
dotted c1 c2 c3 c4 =
    bit_or (bit_or (bit_or (c1 * 2 ^ 24 % 2 ^ 32) (c2 * 2 ^ 16 % 2 ^ 32)) (c3 * 2 ^ 8 % 2 ^ 32)) c4

-- The table before and from `upper_bound(table.begin(), table.end(), v)`, the first record that ends
-- above `v`.
pub before : ℕ → List IpRecord → List IpRecord
before v [] = []
before v (r ∷ rs) = if ltb v (r.end) then [] else r ∷ before v rs

pub upper_bound : ℕ → List IpRecord → List IpRecord
upper_bound v [] = []
upper_bound v (r ∷ rs) = if ltb v (r.end) then r ∷ rs else upper_bound v rs

-- The `while` loop that merges the records behind, and `table.insert`.
pub absorb : IpRecord → List IpRecord → List IpRecord
absorb new [] = new ∷ []
absorb new (r ∷ rs) =
    let rest = absorb (record new { end = if ltb (new.end) (r.end) then r.end else new.end }) rs in
    if leb (r.begin) (new.end) then rest else new ∷ r ∷ rs

-- The `if` before it: a record that reaches up to the new one holds it already, or is merged.
pub merge_left : IpRecord → List IpRecord → List IpRecord
merge_left new [] = absorb new []
merge_left new (r ∷ rs) =
    if leb (r.begin) ((new.begin + 2 ^ 32 - 1) % 2 ^ 32)
    then if leb (new.end) (r.end) then r ∷ rs else absorb (record new { begin = r.begin }) rs
    else absorb new (r ∷ rs)

-- One accepted line of the file.
pub add_record : IpRecord → List IpRecord → List IpRecord
add_record new table =
    let key = (new.begin + 2 ^ 32 - 1) % 2 ^ 32 in
    before key table ++ merge_left new (upper_bound key table)

pub holds : ℕ → List IpRecord → Bool
holds addr [] = false
holds addr (r ∷ rs) = leb (r.begin) addr

-- `IpExists`; the address has its first byte, `s_b1`, lowest.
unfoldable pub host_order : ℕ → ℕ
host_order ip = dotted (ip % 256) (ip / 2 ^ 8 % 256) (ip / 2 ^ 16 % 256) (ip / 2 ^ 24 % 256)

pub ip_exists : ℕ → List IpRecord → Bool
ip_exists ip table = holds (host_order ip) (upper_bound (host_order ip) table)
