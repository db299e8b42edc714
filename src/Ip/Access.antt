-- ===== src/Ip/Access.antt =====
-- `CIPAccessLimit` of src/AuthServer/IPList.cpp: how many connections each address holds, in sixteen
-- maps behind sixteen locks. Each call runs under the lock of its map, so a call is one step.
pub mod Counts
pub mod History
use game_login.Base.{
  ℕ, suc, ◌+◌, ◌-◌, ◌/◌, ◌%◌, ◌^◌, ◌≤◌, ◌<◌, bit_and, Bool, true, false, List, [], ◌∷◌, Option,
  none, some, ltb, leb, ◌==◌, if◌then◌else◌,
}
use game_login.Base.OrderedMap.{lookup, insert, adjust, erase}

-- `in_addr`, whose `s_b1` is the lowest byte of `S_addr`.
unfoldable pub lock_value : ℕ → ℕ
lock_value ip =
    let value = (ip % 256 + ip / 2 ^ 8 % 256 + ip / 2 ^ 16 % 256 + ip / 2 ^ 24 % 256) % 2 ^ 32 in
    let test = bit_and value 0x0000000f in if leb 16 test then 15 else test

-- `accessmap[16]`: address to connections.
abbrev pub AccessMaps : Type 0
AccessMaps = ℕ → List (ℕ × ℕ)

-- One map of the sixteen is replaced.
unfoldable pub replace : ℕ → List (ℕ × ℕ) → AccessMaps → AccessMaps
replace i m maps j = if i == j then m else maps j

abbrev pub no_connections : AccessMaps
no_connections i = []

-- `limit` is `config.IPAccessLimit`, with 0 for the values that turn the limit off.
unfoldable pub set_access : ℕ → ℕ → AccessMaps → AccessMaps × Bool
set_access limit ip maps =
    let index = lock_value ip in
    if leb limit 0 then (maps, true) else elim (lookup ip (maps index)) [
      | none ↦ (replace index (insert ip 1 (maps index)) maps, true)
      | some conn_num ↦
          if ltb conn_num limit
          then (replace index (adjust ip suc (maps index)) maps, true)
          else (maps, false)
    ]

pub del_access : ℕ → ℕ → AccessMaps → AccessMaps × Bool
del_access limit ip maps =
    let index = lock_value ip in
    if leb limit 0 then (maps, true) else elim (lookup ip (maps index)) [
      | none ↦ (maps, false)
      | some conn_num ↦
          if ltb 1 conn_num
          then (replace index (adjust ip (λ n. n - 1) (maps index)) maps, true)
          else (replace index (erase ip (maps index)) maps, true)
    ]
