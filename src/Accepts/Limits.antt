-- ===== src/Accepts/Limits.antt =====
-- The three counts agree over any history.
use game_login.Base.{
  ℕ, ◌+◌, ◌<◌, ◌≡◌, refl, ap, Bool, ◌&&◌, List, [], ◌∷◌, none, some, ltb, ◌==◌, arith, length,
  total, if◌then◌else◌,
}
use game_login.Base.OrderedMap.{lookup, insert, erase}
use game_login.Ip.Access.{AccessMaps, set_access, del_access}
use game_login.Ip.Access.Counts.{
  IsAccess, connections, connects, closes, step, step_counts, step-IsAccess,
}
use game_login.Accepts.{Server}

module _ (weight : ℕ × ℕ → ℕ) where
  total-insert :
      (k v : ℕ) (m : List (ℕ × ℕ))
      → lookup k m ≡ none
      → total weight (insert k v m) ≡ weight (k, v) + total weight m
  unfolding lookup insert
  total-insert k v [] h = refl
  total-insert k v ((j, w) ∷ m) h = ground (arith, total-insert k v m)

  total-erase :
      (k v : ℕ) (m : List (ℕ × ℕ))
      → lookup k m ≡ some v
      → weight (k, v) + total weight (erase k m) ≡ total weight m
  unfolding lookup erase
  total-erase k v [] h = cc
  total-erase k v ((j, w) ∷ m) h = ground (arith, total-erase k v m)

-- How many of the sockets are of an address.
unfoldable pub of_address : ℕ → List (ℕ × ℕ) → ℕ
of_address ip m = total (λ (p : ℕ × ℕ). if p.1 == ip then 1 else 0) m

pub of_address-insert :
    (k v ip : ℕ) (m : List (ℕ × ℕ))
    → lookup k m ≡ none
    → of_address ip (insert k v m) ≡ (if v == ip then 1 else 0) + of_address ip m
unfolding of_address
of_address-insert k v ip m h = total-insert _ k v m h

pub of_address-erase :
    (k v ip : ℕ) (m : List (ℕ × ℕ))
    → lookup k m ≡ some v
    → (if v == ip then 1 else 0) + of_address ip (erase k m) ≡ of_address ip m
unfolding of_address
of_address-erase k v ip m h = total-erase _ k v m h

length-total : (m : List (ℕ × ℕ)) → length m ≡ total (λ (p : ℕ × ℕ). 1) m
length-total [] = refl
length-total (p ∷ m) = omega (arith, length-total m)

pub length-insert :
    (k v : ℕ) (m : List (ℕ × ℕ)) → lookup k m ≡ none → length (insert k v m) ≡ length m + 1
length-insert k v m h =
    omega
      (arith, length-total m, length-total (insert k v m), total-insert (λ (p : ℕ × ℕ). 1) k v m h)

pub length-erase :
    (k v : ℕ) (m : List (ℕ × ℕ)) → lookup k m ≡ some v → length (erase k m) + 1 ≡ length m
length-erase k v m h =
    omega (arith, length-total m, length-total (erase k m), total-erase (λ (p : ℕ × ℕ). 1) k v m h)

pub erase_absent : (k : ℕ) (m : List (ℕ × ℕ)) → lookup k m ≡ none → erase k m ≡ m
unfolding lookup erase
erase_absent k [] h = refl
erase_absent k ((j, w) ∷ m) h = ground (arith, erase_absent k m)

-- The count of the sockets is that of the table, and the counts of the addresses are those of the
-- sockets in it.
pub record Agrees (server : Server) (m : List (ℕ × ℕ)) : Type 0 where
  pub table : server.socketmap ≡ m
  pub sound : IsAccess server.access
  pub sockets : server.socket_count ≡ length m
  pub addresses : (ip : ℕ) → connections server.access ip ≡ of_address ip m

module _ (socket_limit ip_limit : ℕ) (on : 0 < ip_limit) where
  -- The promise, in terms of the open sockets alone.
  abbrev pub room : ℕ → List (ℕ × ℕ) → Bool
  room ip m = ltb (length m) socket_limit && ltb (of_address ip m) ip_limit

  -- What `SetAccessIP` answers, and what it leaves.
  pub set_access_facts :
      (ip : ℕ) (maps : AccessMaps)
      → IsAccess maps
      → IsAccess (set_access ip_limit ip maps).0
        × ((set_access ip_limit ip maps).1 ≡ ltb (connections maps ip) ip_limit)
        × ((j : ℕ)
            → connections (set_access ip_limit ip maps).0 j ≡ (
                if ltb (connections maps ip) ip_limit
                then (if ip == j then 1 else 0) + connections maps j
                else connections maps j))
  set_access_facts ip maps v =
      let (same, answer) = step_counts ip_limit (connects ip) maps v in
      (
        unfold step in step-IsAccess ip_limit (connects ip) maps v,
        unfold step in ground (arith, answer, on),
        λ j. unfold step in ground (arith, ap (λ (f : ℕ → ℕ). f j) same, on),
      )

  pub del_access_facts :
      (ip : ℕ) (maps : AccessMaps)
      → IsAccess maps
      → 0 < connections maps ip
      → IsAccess (del_access ip_limit ip maps).0
        × ((j : ℕ)
            → (if ip == j then 1 else 0) + connections (del_access ip_limit ip maps).0 j
              ≡ connections maps j)
  del_access_facts ip maps v pos =
      let (same, answer) = step_counts ip_limit (closes ip) maps v in
      (
        unfold step in step-IsAccess ip_limit (closes ip) maps v,
        λ j. unfold step in ground (arith, ap (λ (f : ℕ → ℕ). f j) same, on, pos),
      )
