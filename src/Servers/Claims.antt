-- ===== src/Servers/Claims.antt =====
-- The loops of `SetServerSocketByAddress` and `RemoveSocket` of src/AuthServer/ServerList.cpp.
use mathlib.Core.Option as Opt
use game_login.Base.{
  ℕ, zero, suc, ◌≤◌, ◌<◌, ◌≡◌, refl, ap, subst, sym, ◌∙◌, true, false, ◌⊎◌, Bool-cases, [], ◌∷◌,
  ◌==◌, if◌then◌else◌, arith, inl, inr,
}
use game_login.Base.OrderedMap.{lookup, insert, adjust, Ordered}
use game_login.Servers.{WorldServer, Servers, claim, remove_socket}
use game_login.Servers.Calls.{Entries, has_address, last_with, IsBytes}

pub lookup-claim :
    (address socket id i : ℕ) (m : Servers)
    → lookup i (claim address socket id m).servers
      ≡ Opt.map
          (λ (w : WorldServer). if w.inner_addr == address then record w { s = socket } else w)
          (lookup i m)
unfolding lookup claim
lookup-claim address socket id i [] = refl
lookup-claim address socket id i ((k, w) ∷ m) =
    ground (arith, lookup-claim address socket k i m, lookup-claim address socket id i m)

pub lookup-remove_socket :
    (socket i : ℕ) (m : Servers)
    → lookup i (remove_socket socket m)
      ≡ Opt.map
          (λ (w : WorldServer). if w.s == socket then record w { status = 0; s = 0 } else w)
          (lookup i m)
unfolding lookup remove_socket
lookup-remove_socket socket i [] = refl
lookup-remove_socket socket i ((k, w) ∷ m) = ground (arith, lookup-remove_socket socket i m)

pub claim-Ordered :
    (lo address socket id : ℕ) (m : Servers)
    → Ordered lo m
    → Ordered lo (claim address socket id m).servers
unfolding claim
claim-Ordered lo address socket id [] o = tt
claim-Ordered lo address socket id ((k, w) ∷ m) o = ground (
  arith,
  claim-Ordered (suc k) address socket k m o.1,
  claim-Ordered (suc k) address socket id m o.1,
)

pub remove_socket-Ordered :
    (lo socket : ℕ) (m : Servers) → Ordered lo m → Ordered lo (remove_socket socket m)
unfolding remove_socket
remove_socket-Ordered lo socket [] o = tt
remove_socket-Ordered lo socket ((k, w) ∷ m) o =
    ground (arith, remove_socket-Ordered (suc k) socket m o.1)

-- The greatest id is found from above.
pub last_with_lem :
    (address n k : ℕ) (f : Entries)
    → k < n
    → has_address address (f k) ≡ true
    → ((j : ℕ) → k < j → has_address address (f j) ≡ false)
    → last_with address f n ≡ k
unfolding last_with
last_with_lem address zero k f h at above = absurd (omega arith)
last_with_lem address (suc n) k f h at above = elim (Bool-cases (n == k)) [
  | inl e ↦
      let same : n ≡ k = ground arith in rw (ap (λ j. has_address address (f j)) same ∙ at) same
  | inr e ↦ rw (above n (ground arith)) (last_with_lem address n k f (ground arith) at above)
]

pub last_with-none :
    (address n : ℕ) (f : Entries)
    → ((j : ℕ) → has_address address (f j) ≡ false)
    → last_with address f n ≡ 0
unfolding last_with
last_with-none address zero f none_has = refl
last_with-none address (suc n) f none_has = rw (none_has n) (last_with-none address n f none_has)

pub lookup_past :
    (k j : ℕ) (w : WorldServer) (m : Servers) → k < j → lookup j ((k, w) ∷ m) ≡ lookup j m
unfolding lookup
lookup_past k j w m h = ground arith

-- The id is that of the last server with the address, or `id` if no server has it.
abbrev pub IsLast : ℕ → ℕ → ℕ → Servers → ℕ → Type 0
IsLast lo address id m v =
    ((v ≡ id) × ((j : ℕ) → has_address address (lookup j m) ≡ false))
    ⊎ ((lo ≤ v)
        × (v < 256)
        × (has_address address (lookup v m) ≡ true)
        × ((j : ℕ) → v < j → has_address address (lookup j m) ≡ false))

pub claim-value :
    (address socket id k : ℕ) (w : WorldServer) (m : Servers)
    → (claim address socket id ((k, w) ∷ m)).value
      ≡ (claim address socket (if w.inner_addr == address then k else id) m).value
unfolding claim
claim-value address socket id k w m = ground arith

pub hit_IsLast :
    (lo address id k v : ℕ) (w : WorldServer) (m : Servers)
    → lo ≤ k
    → k < 256
    → w.inner_addr == address ≡ true
    → IsLast (suc k) address k m v
    → IsLast lo address id ((k, w) ∷ m) v
unfolding lookup
hit_IsLast lo address id k v w m low small hit (inl (e, none_has)) = inr (
  omega (arith, e),
  omega (arith, e),
  ground (arith, e, hit),
  λ j h. ap (has_address address) (lookup_past k j w m (omega (arith, e, h))) ∙ none_has j,
)
hit_IsLast lo address id k v w m low small hit (inr (above_k, byte, at, above)) = inr (
  omega (arith, above_k),
  byte,
  ap (has_address address) (lookup_past k v w m (omega (arith, above_k))) ∙ at,
  λ j h. ap (has_address address) (lookup_past k j w m (omega (arith, above_k, h))) ∙ above j h,
)

pub miss_IsLast :
    (lo address id k v : ℕ) (w : WorldServer) (m : Servers)
    → lo ≤ k
    → w.inner_addr == address ≡ false
    → IsLast (suc k) address id m v
    → IsLast lo address id ((k, w) ∷ m) v
unfolding lookup
miss_IsLast lo address id k v w m low miss (inl (e, none_has)) =
    inl (e, λ j. ground (arith, miss, none_has j))
miss_IsLast lo address id k v w m low miss (inr (above_k, byte, at, above)) = inr (
  omega (arith, above_k),
  byte,
  ap (has_address address) (lookup_past k v w m (omega (arith, above_k))) ∙ at,
  λ j h. ap (has_address address) (lookup_past k j w m (omega (arith, above_k, h))) ∙ above j h,
)

pub claim-IsLast :
    (lo address socket id : ℕ) (m : Servers)
    → Ordered lo m
    → IsBytes m
    → IsLast lo address id m (claim address socket id m).value
claim-IsLast lo address socket id [] o b = inl (unfold claim in refl, λ j. unfold lookup in refl)
claim-IsLast lo address socket id ((k, w) ∷ m) o b =
    subst (IsLast lo address id ((k, w) ∷ m)) (sym (claim-value address socket id k w m))
      (elim (Bool-cases (w.inner_addr == address)) [
        | inl hit ↦ rw hit (
            hit_IsLast lo address id k _ w m o.0 b.0 hit
              (claim-IsLast (suc k) address socket k m o.1 b.1))
        | inr miss ↦ rw miss (
            miss_IsLast lo address id k _ w m o.0 miss
              (claim-IsLast (suc k) address socket id m o.1 b.1))
      ])

pub claim-last_with :
    (address socket : ℕ) (m : Servers)
    → Ordered 0 m
    → IsBytes m
    → (claim address socket 0 m).value ≡ last_with address (λ j. lookup j m) 256
claim-last_with address socket m o b = elim (claim-IsLast 0 address socket 0 m o b) [
  | inl (e, none_has) ↦ e ∙ sym (last_with-none address 256 (λ j. lookup j m) none_has)
  | inr (low, small, at, above) ↦ sym (last_with_lem address 256 _ (λ j. lookup j m) small at above)
]

pub claim-IsBytes :
    (address socket id : ℕ) (m : Servers) → IsBytes m → IsBytes (claim address socket id m).servers
unfolding claim
claim-IsBytes address socket id [] b = tt
claim-IsBytes address socket id ((k, w) ∷ m) b =
    ground (arith, claim-IsBytes address socket k m b.1, claim-IsBytes address socket id m b.1)

pub remove_socket-IsBytes :
    (socket : ℕ) (m : Servers) → IsBytes m → IsBytes (remove_socket socket m)
unfolding remove_socket
remove_socket-IsBytes socket [] b = tt
remove_socket-IsBytes socket ((k, w) ∷ m) b = ground (arith, remove_socket-IsBytes socket m b.1)

pub insert-IsBytes :
    (id : ℕ) (w : WorldServer) (m : Servers) → id < 256 → IsBytes m → IsBytes (insert id w m)
unfolding insert
insert-IsBytes id w [] h b = (h, tt)
insert-IsBytes id w ((k, v) ∷ m) h b = ground (arith, insert-IsBytes id w m h b.1)

pub adjust-IsBytes :
    (id : ℕ) (g : WorldServer → WorldServer) (m : Servers) → IsBytes m → IsBytes (adjust id g m)
unfolding adjust
adjust-IsBytes id g [] b = tt
adjust-IsBytes id g ((k, v) ∷ m) b = ground (arith, adjust-IsBytes id g m b.1)
