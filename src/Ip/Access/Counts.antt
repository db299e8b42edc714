-- ===== src/Ip/Access/Counts.antt =====
-- The sixteen maps seen as one count for each address, and the limit over any history of calls.
use mathlib.Core.Option as Opt
use mathlib.Core.Path.{fun_ext}
use game_login.Base.{
  ℕ, suc, ◌+◌, ◌-◌, ◌<◌, ◌≡◌, ◌⊎◌, inl, inr, Bool, true, false, none, some, ltb, leb, ◌==◌,
  if◌then◌else◌, arith, Option-cases,
}
use game_login.Base.OrderedMap.{
  lookup, Ordered, insert-Ordered, adjust-Ordered, erase-Ordered, lookup-insert, lookup-adjust,
  lookup-erase,
}
use game_login.Ip.Access.{lock_value, AccessMaps, replace, set_access, del_access}

-- The connections of an address, none if it has no entry.
unfoldable pub connections : AccessMaps → ℕ → ℕ
connections maps ip = Opt.get_or (lookup ip (maps (lock_value ip))) 0

-- Every map is in order, and an entry counts at least one connection.
pub record IsAccess (maps : AccessMaps) : Type 0 where
  pub ordered : (i : ℕ) → Ordered 0 (maps i)
  pub positive : (i ip n : ℕ) → lookup ip (maps i) ≡ some n → 0 < n

set_access-IsAccess :
    (limit ip : ℕ) (maps : AccessMaps) → IsAccess maps → IsAccess (set_access limit ip maps).0
unfolding set_access replace
set_access-IsAccess limit ip maps v = record {
  ordered = λ i. ground (
    arith,
    v.ordered i,
    v.ordered (lock_value ip),
    insert-Ordered 0 ip 1 (maps (lock_value ip)),
    adjust-Ordered 0 ip suc (maps (lock_value ip)),
  );
  positive = λ i j n e. ground (
    arith,
    v.positive i j n,
    v.positive (lock_value ip) j,
    lookup-insert 0 ip j 1 (maps (lock_value ip)) (v.ordered (lock_value ip)),
    lookup-adjust ip j suc (maps (lock_value ip)),
  );
}

del_access-IsAccess :
    (limit ip : ℕ) (maps : AccessMaps) → IsAccess maps → IsAccess (del_access limit ip maps).0
unfolding del_access replace
del_access-IsAccess limit ip maps v = record {
  ordered = λ i. ground (
    arith,
    v.ordered i,
    v.ordered (lock_value ip),
    erase-Ordered 0 ip (maps (lock_value ip)),
    adjust-Ordered 0 ip (λ n. n - 1) (maps (lock_value ip)),
  );
  positive = λ i j n e. ground (
    arith,
    v.positive i j n,
    v.positive (lock_value ip) j,
    lookup-erase 0 ip j (maps (lock_value ip)) (v.ordered (lock_value ip)),
    lookup-adjust ip j (λ n. n - 1) (maps (lock_value ip)),
  );
}

-- The sum of the bytes is cut to four bits, so the index stays within `lock[16]` and `accessmap[16]`.
pub lock_value-lt : (ip : ℕ) → lock_value ip < 16
unfolding lock_value
lock_value-lt ip = ground arith

-- A client that connects, and one that closes.
pub data Call : Type 0 where
  connects : ℕ → Call
  closes : ℕ → Call

unfoldable pub step : ℕ → Call → AccessMaps → AccessMaps × Bool
step limit (connects ip) maps = set_access limit ip maps
step limit (closes ip) maps = del_access limit ip maps

-- The promise: one number for each address, which goes up to the limit and down to nothing.
abbrev pub count_step : ℕ → Call → (ℕ → ℕ) → (ℕ → ℕ) × Bool
count_step limit (connects ip) counts =
    if leb limit 0
    then (counts, true)
    else if ltb (counts ip) limit
    then ((λ j. if ip == j then counts j + 1 else counts j), true)
    else (counts, false)
count_step limit (closes ip) counts =
    if leb limit 0
    then (counts, true)
    else if ltb 0 (counts ip)
    then ((λ j. if ip == j then counts j - 1 else counts j), true)
    else (counts, false)

pub step-IsAccess :
    (limit : ℕ) (c : Call) (maps : AccessMaps) → IsAccess maps → IsAccess (step limit c maps).0
unfolding step
step-IsAccess limit (connects ip) maps v = set_access-IsAccess limit ip maps v
step-IsAccess limit (closes ip) maps v = del_access-IsAccess limit ip maps v

connects_counts :
    (limit ip : ℕ) (maps : AccessMaps)
    → IsAccess maps
    → ((j : ℕ)
        → connections (set_access limit ip maps).0 j
          ≡ (count_step limit (connects ip) (connections maps)).0 j)
      × ((set_access limit ip maps).1 ≡ (count_step limit (connects ip) (connections maps)).1)
unfolding set_access replace connections
connects_counts limit ip maps v = (
  λ j. ground (
    arith,
    lookup-insert 0 ip j 1 (maps (lock_value ip)) (v.ordered (lock_value ip)),
    lookup-adjust ip j suc (maps (lock_value ip)),
    v.positive (lock_value ip) ip,
  ),
  ground (arith, v.positive (lock_value ip) ip),
)

entry :
    (maps : AccessMaps) (ip : ℕ)
    → IsAccess maps
    → (lookup ip (maps (lock_value ip)) ≡ none)
      ⊎ ((n : ℕ) × (lookup ip (maps (lock_value ip)) ≡ some n) × (0 < n))
entry maps ip v = elim (Option-cases (lookup ip (maps (lock_value ip)))) [
  | inl e ↦ inl e
  | inr (n, e) ↦ inr (n, e, v.positive (lock_value ip) ip n e)
]

closes_counts :
    (limit ip : ℕ) (maps : AccessMaps)
    → IsAccess maps
    → ((j : ℕ)
        → connections (del_access limit ip maps).0 j
          ≡ (count_step limit (closes ip) (connections maps)).0 j)
      × ((del_access limit ip maps).1 ≡ (count_step limit (closes ip) (connections maps)).1)
unfolding del_access replace connections
closes_counts limit ip maps v = (
  λ j. ground (
    arith,
    lookup-erase 0 ip j (maps (lock_value ip)) (v.ordered (lock_value ip)),
    lookup-adjust ip j (λ n. n - 1) (maps (lock_value ip)),
    entry maps ip v,
  ),
  ground (arith, entry maps ip v),
)

-- One call on the maps is one step of the counts, with the same answer.
pub step_counts :
    (limit : ℕ) (c : Call) (maps : AccessMaps)
    → IsAccess maps
    → (connections (step limit c maps).0 ≡ (count_step limit c (connections maps)).0)
      × ((step limit c maps).1 ≡ (count_step limit c (connections maps)).1)
unfolding step
step_counts limit (connects ip) maps v =
    let (same, answer) = connects_counts limit ip maps v in (fun_ext same, answer)
step_counts limit (closes ip) maps v =
    let (same, answer) = closes_counts limit ip maps v in (fun_ext same, answer)
