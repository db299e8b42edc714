-- ===== src/Ip/Ranges/Cover.antt =====
-- The table as a set of addresses: a search answers by it, and adding a range adds its addresses.
use game_login.Base.{
  ℕ, suc, ◌+◌, ◌-◌, ◌%◌, ◌^◌, ◌≤◌, ◌<◌, ◌≡◌, refl, Bool, false, ◌&&◌, ◌||◌, List, [], ◌∷◌, ◌++◌,
  ltb, leb, if◌then◌else◌, arith,
}
use game_login.Ip.Ranges.{
  IpRecord, before, upper_bound, absorb, merge_left, add_record, holds, ip_exists, host_order,
}

-- The address lies in the range; in one of the table's.
abbrev pub within : ℕ → IpRecord → Bool
within a r = leb (r.begin) a && ltb a (r.end)

abbrev pub covered : ℕ → List IpRecord → Bool
covered a [] = false
covered a (r ∷ rs) = within a r || covered a rs

-- From `lo` on: no range is empty, none touches the next, and all ends fit an `unsigned`.
abbrev pub Apart : ℕ → List IpRecord → Type 0
Apart lo [] = Unit
Apart lo (r ∷ rs) = (lo ≤ r.begin) × (r.begin < r.end) × (r.end < 2 ^ 32) × Apart (suc (r.end)) rs

abbrev pub IsTable : List IpRecord → Type 0
IsTable table = Apart 0 table

not_covered : (a lo : ℕ) (rs : List IpRecord) → Apart lo rs → a < lo → covered a rs ≡ false
not_covered a lo [] t h = refl
not_covered a lo (r ∷ rs) t h = ground (arith, not_covered a (suc (r.end)) rs t.3)

-- The search finds an address exactly where a linear walk would.
search_covered :
    (a lo : ℕ) (rs : List IpRecord) → Apart lo rs → holds a (upper_bound a rs) ≡ covered a rs
unfolding holds upper_bound
search_covered a lo [] t = refl
search_covered a lo (r ∷ rs) t =
    ground (arith, search_covered a (suc (r.end)) rs t.3, not_covered a (suc (r.end)) rs t.3)

-- The new range and what it merges: `b` and `e` are its ends.
covered-absorb :
    (a lo b e : ℕ) (rs : List IpRecord)
    → Apart lo rs
    → b < e
    → b ≤ lo
    → covered a (absorb (record { begin = b; end = e }) rs)
      ≡ (within a (record { begin = b; end = e }) || covered a rs)
unfolding absorb
covered-absorb a lo b e [] t h k = ground arith
covered-absorb a lo b e (r ∷ rs) t h k =
    let w = if ltb e (r.end) then r.end else e in
    ground (arith, covered-absorb a (suc (r.end)) b w rs t.3 (ground arith) (omega arith))

absorb-Apart :
    (lo mid b e : ℕ) (rs : List IpRecord)
    → Apart mid rs
    → lo ≤ b
    → b < e
    → e < 2 ^ 32
    → b ≤ mid
    → Apart lo (absorb (record { begin = b; end = e }) rs)
unfolding absorb
absorb-Apart lo mid b e [] t p q r k = (p, q, r, tt)
absorb-Apart lo mid b e (s ∷ rs) t p q r k =
    let w = if ltb e (s.end) then s.end else e in
    ground (
      arith,
      absorb-Apart lo (suc (s.end)) b w rs t.3 p (ground arith) (ground arith) (omega arith),
    )

-- `begin - 1` on `unsigned`, away from 0.
pred_word : (b : ℕ) → 0 < b → b < 2 ^ 32 → (b + 2 ^ 32 - 1) % 2 ^ 32 + 1 ≡ b
pred_word b k m = omega arith

-- The record that `upper_bound` found, if any, ends at the new range's beginning or later.
abbrev Reaches : ℕ → List IpRecord → Type 0
Reaches b [] = Unit
Reaches b (r ∷ rs) = b ≤ r.end

module _ (b e : ℕ) (nonempty : b < e) (above : 0 < b) (fits : e < 2 ^ 32) where
  abbrev new : IpRecord
  new = record { begin = b; end = e }

  covered-merge_left :
      (a lo : ℕ) (rs : List IpRecord)
      → Apart lo rs
      → Reaches b rs
      → covered a (merge_left new rs) ≡ (within a new || covered a rs)
  unfolding merge_left
  covered-merge_left a lo [] t reach = covered-absorb a b b e [] tt nonempty (omega arith)
  covered-merge_left a lo (r ∷ rs) t reach = ground (
    arith,
    pred_word b above (omega arith),
    covered-absorb a (suc (r.end)) (r.begin) e rs t.3,
    covered-absorb a (r.begin) b e (r ∷ rs) (omega arith, t.1, t.2, t.3) nonempty,
  )

  merge_left-Apart :
      (lo : ℕ) (rs : List IpRecord)
      → Apart lo rs
      → Reaches b rs
      → lo ≤ b
      → Apart lo (merge_left new rs)
  unfolding merge_left
  merge_left-Apart lo [] t reach h = absorb-Apart lo b b e [] tt h nonempty fits (omega arith)
  merge_left-Apart lo (r ∷ rs) t reach h = ground (
    arith,
    pred_word b above (omega arith),
    absorb-Apart lo (suc (r.end)) (r.begin) e rs t.3,
    absorb-Apart lo (r.begin) b e (r ∷ rs) (omega arith, t.1, t.2, t.3),
  )

  add_lem :
      (a lo : ℕ) (table : List IpRecord)
      → Apart lo table
      → lo ≤ b
      → let after = before (b - 1) table ++ merge_left new (upper_bound (b - 1) table) in
        (covered a after ≡ (within a new || covered a table)) × Apart lo after
  unfolding before upper_bound
  add_lem a lo [] t h = (covered-merge_left a lo [] t tt, merge_left-Apart lo [] t tt h)
  add_lem a lo (r ∷ rs) t h = ground (
    arith,
    add_lem a (suc (r.end)) rs t.3,
    covered-merge_left a lo (r ∷ rs) t,
    merge_left-Apart lo (r ∷ rs) t,
  )

  -- A nonempty range that begins above 0 and whose end fits an `unsigned` is added to a table of
  -- ranges that are nonempty, in order and apart: the table stays so, and covers exactly the
  -- addresses that it covered and those of the range.
  pub covered-add_record :
      (table : List IpRecord)
      → IsTable table
      → IsTable (add_record new table)
        × ((a : ℕ) → covered a (add_record new table) ≡ (within a new || covered a table))
  unfolding add_record
  covered-add_record table t =
      let key : (b + 2 ^ 32 - 1) % 2 ^ 32 ≡ b - 1 = omega arith in
      rw key ((add_lem 0 0 table t (omega arith)).1, λ a. (add_lem a 0 table t (omega arith)).0)

-- On a table of ranges that are nonempty, in order and apart, the binary search answers whether the
-- address lies in one of them.
pub ip_exists-covered :
    (ip : ℕ) (table : List IpRecord)
    → IsTable table
    → ip_exists ip table ≡ covered (host_order ip) table
unfolding ip_exists
ip_exists-covered ip table t = search_covered (host_order ip) 0 table t
