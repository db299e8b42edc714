-- ===== src/Examples/SpinLocks.antt =====
-- Two threads at a spin lock.
use game_login.Base.{ℕ, arith, zero, suc, false, ◌≡◌, ◌≢◌, refl, [], ◌∷◌, some, get_elem?, ◌⊎◌}
use game_login.Locks.Spin.{
  custom_spin_lock, outside, spinning, inside, Spin, new_spin, enter, go, go_custom, exchange, step,
  wait_count, Reachable, start, move,
}
use game_login.Locks.Spin.Exclusion.{Enters, Reachable-inside, Reachable-Enters}

-- The first has gone in, and the second waits.
abbrev one_inside : Spin
one_inside = record {
  custom_lock = 1;
  critical = false;
  threads = inside ∷ spinning wait_count ∷ [];
}

one_inside-Reachable : Reachable custom_spin_lock 2 one_inside
unfolding new_spin go go_custom exchange
one_inside-Reachable = move enter 1 (move enter 0 start refl) refl

-- The first has gone out again.
abbrev none_inside : Spin
none_inside = record {
  custom_lock = 0;
  critical = false;
  threads = outside ∷ spinning wait_count ∷ [];
}

none_inside-Reachable : Reachable custom_spin_lock 2 none_inside
unfolding go go_custom
none_inside-Reachable = move enter 0 one_inside-Reachable refl

none_there : (j : ℕ) → get_elem? (none_inside.threads) j ≢ some inside
none_there zero e = cc
none_there (suc zero) e = cc
none_there (suc (suc j)) e = cc

Reachable-inside_example : get_elem? one_inside.threads 1 ≢ some inside
Reachable-inside_example = Reachable-inside 0 1 one_inside-Reachable (λ e. omega (arith, e)) refl

Reachable-Enters_example :
    Enters 1 none_inside
    ⊎ ((mid : Spin) × (step custom_spin_lock enter 1 none_inside ≡ some mid) × Enters 1 mid)
Reachable-Enters_example =
    Reachable-Enters 1 (spinning wait_count) none_inside-Reachable none_there refl
