-- ===== src/Servers/Ids.antt =====
-- The id for a new server: `GetFreeServerId` of src/AuthServer/ServerList.cpp.
use game_login.Base.{
  ℕ, zero, suc, ◌+◌, ◌%◌, ◌≤◌, ◌<◌, ◌≡◌, refl, ap, sym, ◌∙◌, true, Bool-cases, [], ◌∷◌, Option,
  none, some, ◌==◌, arith, All, inl, inr, Option-cases, ◌≢◌,
}
use game_login.Base.OrderedMap.{lookup, Ordered}
use game_login.Servers.{WorldServer, Servers, max_id, get_free_server_id, claim}
use game_login.Servers.Calls.{Entries, is_there, last_id, IsBytes}

pub max_id-claim :
    (address socket id : ℕ) (m : Servers) → max_id (claim address socket id m).servers ≡ max_id m
unfolding max_id claim
max_id-claim address socket id [] = refl
max_id-claim address socket id ((k, w) ∷ []) = ground arith
max_id-claim address socket id ((k, w) ∷ (j, v) ∷ m) =
    ground (
      arith,
      max_id-claim address socket k ((j, v) ∷ m),
      max_id-claim address socket id ((j, v) ∷ m),
    )

-- The greatest key is that of an entry, at or above `lo`, and no key is above it.
pub max_id_lem :
    (lo : ℕ) (m : Servers) (k : ℕ)
    → Ordered lo m
    → All (λ (e : ℕ × WorldServer). e.0 < 256) m
    → max_id m ≡ some k
    → (lo ≤ k) × (k < 256) × (lookup k m ≢ none) × ((i : ℕ) → k < i → lookup i m ≡ none)
unfolding lookup max_id
max_id_lem lo [] k o small e = cc
max_id_lem lo ((j, w) ∷ []) k o small e =
    (ground arith, ground arith, λ f. ground arith, λ i h. ground arith)
max_id_lem lo ((j, w) ∷ kw ∷ m) k o small e =
    let rest = max_id_lem (suc j) (kw ∷ m) k o.1 small.1 e in
    (
      omega (arith, rest.0),
      rest.1,
      λ f. rest.2 (ground (arith, rest.0)),
      λ i h. ground (arith, rest.0, rest.3 i h),
    )

pub max_id-none : (m : Servers) → max_id m ≡ none → m ≡ []
unfolding max_id
max_id-none [] e = refl
max_id-none ((j, w) ∷ []) e = cc
max_id-none ((j, w) ∷ kw ∷ m) e = ground (arith, max_id-none (kw ∷ m) e)

pub there : (o : Option WorldServer) → o ≢ none → is_there o ≡ true
there none h = absurd (h refl)
there (some w) h = refl

pub last_id_lem :
    (n k : ℕ) (f : Entries) → k < n → f k ≢ none → ((j : ℕ) → k < j → f j ≡ none) → last_id f n ≡ k
unfolding last_id
last_id_lem zero k f h at above = absurd (omega arith)
last_id_lem (suc n) k f h at above = elim (Bool-cases (n == k)) [
  | inl e ↦
      let same : n ≡ k = ground arith in rw (ap (λ j. is_there (f j)) same ∙ there (f k) at) same
  | inr e ↦ rw (above n (ground arith)) (last_id_lem n k f (ground arith) at above)
]

pub last_id-none : (n : ℕ) (f : Entries) → ((j : ℕ) → f j ≡ none) → last_id f n ≡ 0
unfolding last_id
last_id-none zero f empty = refl
last_id-none (suc n) f empty = rw (empty n) (last_id-none n f empty)

pub lookup_nil : (j : ℕ) → lookup {V = WorldServer} j [] ≡ none
unfolding lookup
lookup_nil j = refl

pub get_free_server_id-last_id :
    (m : Servers)
    → Ordered 0 m
    → IsBytes m
    → get_free_server_id m ≡ (last_id (λ j. lookup j m) 256 + 1) % 256
get_free_server_id-last_id m o b = elim (Option-cases (max_id m)) [
  | inl e ↦
      let empty = λ (j : ℕ). ap (lookup j) (max_id-none m e) ∙ lookup_nil j in
      free_id none e
      ∙ ap (λ (i : ℕ). (i + 1) % 256) (sym (last_id-none 256 (λ j. lookup j m) empty))
  | inr (k, e) ↦
      let top = max_id_lem 0 m k o b e in
      free_id (some k) e
      ∙ ap (λ (i : ℕ). (i + 1) % 256) (sym (last_id_lem 256 k (λ j. lookup j m) top.1 top.2 top.3))
]
  where
    free_id :
        (o : Option ℕ)
        → max_id m ≡ o
        → get_free_server_id m ≡ (elim o as (λ _. ℕ) [ none ↦ 1 | some k ↦ (k + 1) % 256 ])
    free_id o e =
        unfold get_free_server_id in
        ap (λ (o : Option ℕ). elim o as (λ _. ℕ) [ none ↦ 1 | some k ↦ (k + 1) % 256 ]) e

pub free_after :
    (address socket : ℕ) (m : Servers)
    → Ordered 0 m
    → IsBytes m
    → get_free_server_id (claim address socket 0 m).servers
      ≡ (last_id (λ j. lookup j m) 256 + 1) % 256
free_after address socket m o b = free_same ∙ get_free_server_id-last_id m o b
  where
    free_same : get_free_server_id (claim address socket 0 m).servers ≡ get_free_server_id m
    free_same =
        unfold get_free_server_id in
        ap (λ (o : Option ℕ). elim o as (λ _. ℕ) [ none ↦ 1 | some k ↦ (k + 1) % 256 ])
          (max_id-claim address socket 0 m)
