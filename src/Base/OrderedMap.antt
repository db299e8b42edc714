-- ===== src/Base/OrderedMap.antt =====
-- A `std::map` under number keys: pairs in the order of their keys, which iteration follows.
use Prim.Native.Nat.{ℕ, suc, ◌≤◌, ◌<◌}
use mathlib.Core.Path.{◌≡◌, refl}
use mathlib.Core.List.{List, [], ◌∷◌}
use mathlib.Core.Option.{Option, none, some}
use mathlib.Core.Option as Opt
use native.Mathlib.Omega.{arith}
use game_login.Base.Tests.{ltb, ◌==◌, if◌then◌else◌}

module _ {ℓ} {V : Type ℓ} where
  -- `find`.
  unfoldable pub lookup : ℕ → List (ℕ × V) → Option V
  lookup k [] = none
  lookup k ((j, v) ∷ m) = if j == k then some v else lookup k m

  -- `insert` keeps the value of a key that is already there.
  unfoldable pub insert : ℕ → V → List (ℕ × V) → List (ℕ × V)
  insert k v [] = (k, v) ∷ []
  insert k v ((j, w) ∷ m) =
      if j == k then (j, w) ∷ m else if ltb k j then (k, v) ∷ (j, w) ∷ m else (j, w) ∷ insert k v m

  -- A change of the value that an iterator at the key points at.
  unfoldable pub adjust : ℕ → (V → V) → List (ℕ × V) → List (ℕ × V)
  adjust k f [] = []
  adjust k f ((j, w) ∷ m) = if j == k then (j, f w) ∷ m else (j, w) ∷ adjust k f m

  unfoldable pub erase : ℕ → List (ℕ × V) → List (ℕ × V)
  erase k [] = []
  erase k ((j, w) ∷ m) = if j == k then m else (j, w) ∷ erase k m

  -- The keys ascend from `lo` on.
  abbrev pub Ordered : ℕ → List (ℕ × V) → Type 0
  Ordered lo [] = Unit
  Ordered lo ((j, w) ∷ m) = (lo ≤ j) × Ordered (suc j) m

  pub lookup_below : (k lo : ℕ) (m : List (ℕ × V)) → Ordered lo m → k < lo → lookup k m ≡ none
  unfolding lookup
  lookup_below k lo [] o h = refl
  lookup_below k lo ((j, w) ∷ m) o h = ground (arith, lookup_below k (suc j) m o.1)

  Ordered-mono : (lo hi : ℕ) (m : List (ℕ × V)) → lo ≤ hi → Ordered hi m → Ordered lo m
  Ordered-mono lo hi [] h o = tt
  Ordered-mono lo hi ((j, w) ∷ m) h o = (omega arith, o.1)

  pub insert-Ordered :
      (lo k : ℕ) (v : V) (m : List (ℕ × V)) → lo ≤ k → Ordered lo m → Ordered lo (insert k v m)
  unfolding insert
  insert-Ordered lo k v [] h o = (h, tt)
  insert-Ordered lo k v ((j, w) ∷ m) h o = ground (arith, insert-Ordered (suc j) k v m)

  pub adjust-Ordered :
      (lo k : ℕ) (f : V → V) (m : List (ℕ × V)) → Ordered lo m → Ordered lo (adjust k f m)
  unfolding adjust
  adjust-Ordered lo k f [] o = tt
  adjust-Ordered lo k f ((j, w) ∷ m) o = ground (arith, adjust-Ordered (suc j) k f m o.1)

  pub erase-Ordered : (lo k : ℕ) (m : List (ℕ × V)) → Ordered lo m → Ordered lo (erase k m)
  unfolding erase
  erase-Ordered lo k [] o = tt
  erase-Ordered lo k ((j, w) ∷ m) o =
      ground (arith, erase-Ordered (suc j) k m o.1, Ordered-mono lo (suc j) m)

  pub lookup-insert :
      (lo k i : ℕ) (v : V) (m : List (ℕ × V))
      → Ordered lo m
      → lookup i (insert k v m) ≡ (if k == i then some (Opt.get_or (lookup i m) v) else lookup i m)
  unfolding lookup insert
  lookup-insert lo k i v [] o = refl
  lookup-insert lo k i v ((j, w) ∷ m) o =
      ground (arith, lookup-insert (suc j) k i v m o.1, lookup_below i (suc j) m o.1)

  pub lookup-adjust :
      (k i : ℕ) (f : V → V) (m : List (ℕ × V))
      → lookup i (adjust k f m) ≡ (if k == i then Opt.map f (lookup i m) else lookup i m)
  unfolding lookup adjust
  lookup-adjust k i f [] = ground arith
  lookup-adjust k i f ((j, w) ∷ m) = ground (arith, lookup-adjust k i f m)

  pub lookup-erase :
      (lo k i : ℕ) (m : List (ℕ × V))
      → Ordered lo m
      → lookup i (erase k m) ≡ (if k == i then none else lookup i m)
  unfolding lookup erase
  lookup-erase lo k i [] o = ground arith
  lookup-erase lo k i ((j, w) ∷ m) o =
      ground (arith, lookup-erase (suc j) k i m o.1, lookup_below i (suc j) m o.1)
