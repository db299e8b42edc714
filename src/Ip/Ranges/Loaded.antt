-- ===== src/Ip/Ranges/Loaded.antt =====
-- The table that a file makes, and what `IpExists` answers over it.
use game_login.Base.{
  ℕ, ◌^◌, ◌<◌, ◌≡◌, refl, ◌∙◌, Bool, true, false, ◌||◌, List, [], ◌∷◌, some, arith, All,
}
use game_login.Ip.Ranges.{IpRecord, before, upper_bound, add_record, holds, ip_exists, host_order}
use game_login.Ip.Ranges.Parse.{
  LineRead, too_long, ignored, range, read_line, read_line-range, load_lines, load,
}
use game_login.Ip.Ranges.Cover.{covered, within, IsTable, covered-add_record, ip_exists-covered}

-- The ranges of the file: those of the lines before the first that is too long.
unfoldable pub accepted : List (List ℕ) → List IpRecord
accepted [] = []
accepted (buf ∷ bufs) = elim (read_line buf) [
  | too_long ↦ []
  | ignored ↦ accepted bufs
  | range new ↦ new ∷ accepted bufs
]

pub record IsLoaded (ranges old table : List IpRecord) : Type 0 where
  pub is_table : IsTable table
  pub covers : (a : ℕ) → covered a table ≡ (covered a ranges || covered a old)

or_shuffle : (x y z : Bool) → (x || (y || z)) ≡ ((y || x) || z)
or_shuffle x y z = ground arith

load_lines-IsLoaded :
    (bufs : List (List ℕ)) (old : List IpRecord)
    → IsTable old
    → All (λ new. 0 < new.begin) (accepted bufs)
    → IsLoaded (accepted bufs) old (load_lines bufs old)
unfolding load_lines accepted
load_lines-IsLoaded [] old t h = record { is_table = t; covers = λ a. refl }
load_lines-IsLoaded (buf ∷ bufs) old t h = go (read_line buf) refl (load_lines-IsLoaded bufs) h
  where
    go :
        (line : LineRead)
        → read_line buf ≡ line
        → ((old : List IpRecord)
            → IsTable old
            → All (λ new. 0 < new.begin) (accepted bufs)
            → IsLoaded (accepted bufs) old (load_lines bufs old))
        → All (λ new. 0 < new.begin) (accepted (buf ∷ bufs))
        → IsLoaded (accepted (buf ∷ bufs)) old (load_lines (buf ∷ bufs) old)
    go too_long e ih =
        rw (e, accepted, load_lines) (λ _. record { is_table = t; covers = λ a. refl })
    go ignored e ih = rw (e, accepted, load_lines) (ih old t)
    go (range new) e ih =
        rw (e, accepted, load_lines)
          (λ h.
            let (nonempty, fits) = read_line-range buf new e in
            let (kept, added) = covered-add_record new.begin new.end nonempty h.0 fits old t in
            let rest = ih (add_record new old) kept h.1 in
            record {
              is_table = rest.is_table;
              covers = λ a.
                  rest.covers a
                  ∙ rw (added a)
                      (or_shuffle (covered a (accepted bufs)) (within a new) (covered a old));
            })

-- A file whose ranges all begin above address 0 makes a table of ranges in order and apart, and then
-- `IpExists` answers whether the address lies in one of the ranges of the file.
pub load-accepted :
    (bufs : List (List ℕ)) (old : List IpRecord)
    → All (λ new. 0 < new.begin) (accepted bufs)
    → IsTable (load (some bufs) old).0
      × ((ip : ℕ) → ip_exists ip (load (some bufs) old).0 ≡ covered (host_order ip) (accepted bufs))
unfolding load
load-accepted bufs old h =
    let loaded = load_lines-IsLoaded bufs [] tt h in
    (
      loaded.is_table,
      λ ip.
          ip_exists-covered ip (load_lines bufs []) loaded.is_table
          ∙ loaded.covers (host_order ip)
          ∙ or_false (covered (host_order ip) (accepted bufs)),
    )
  where
    or_false : (x : Bool) → (x || false) ≡ x
    or_false x = ground arith

-- A range from address 0 that is added to a table of ranges in order and apart, with at least one,
-- is put where the search does not find it: an address of the range that is below the table's first
-- range is not reported.
pub zero_range_lost :
    (e ip : ℕ) (r : IpRecord) (rs : List IpRecord)
    → IsTable (r ∷ rs)
    → e < 2 ^ 32
    → host_order ip < e
    → host_order ip < r.begin
    → (within (host_order ip) (record { begin = 0; end = e }) ≡ true)
      × (ip_exists ip (add_record (record { begin = 0; end = e }) (r ∷ rs)) ≡ false)
unfolding ip_exists add_record upper_bound before holds
zero_range_lost e ip r rs t fits below first = (ground arith, ground arith)
