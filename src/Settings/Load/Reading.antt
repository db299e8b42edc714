-- ===== src/Settings/Load/Reading.antt =====
-- What the methods of `Config` read of a setting that the file gives.
use game_login.Base.{
  ℕ, ◌≡◌, refl, ap, sym, Bool, true, false, ◌||◌, List, [], ◌∷◌, Option, none, if◌then◌else◌,
  Bool-cases, inl, inr,
}
use game_login.Settings.File.{
  lower, same_text, StringMap, get, get_bool, get_int, yes_text, true_text,
}
use game_login.Settings.Load.{get_inet_addr}
use game_login.Settings.Load.Digits.{strtol-decimal}
use game_login.Settings.Load.Entries.{Value, number, flag, text, address, yes, text_of, IsEntry}

abbrev number_in : Value → ℕ
number_in (number n) = n
number_in (address a) = a
number_in _ = 0

abbrev flag_in : Value → Bool
flag_in (flag b) = b
flag_in _ = false

abbrev text_in : Value → Option (List ℕ)
text_in (text t) = t
text_in _ = none

module _ (inet_ntoa : ℕ → List ℕ) (kept : List ℕ → Bool) (inet_addr : List ℕ → ℕ) where
  -- What is read of a written setting, where the map has its text.
  pub get_int-IsEntry :
      (k : List ℕ) (n d : ℕ) (map : StringMap)
      → IsEntry inet_ntoa kept inet_addr (record { key = k; value = number n; default = number d })
      → get k map ≡ (if kept k then text_of inet_ntoa kept (number n) else none)
      → get_int k d map ≡ n
  unfolding get_int text_of
  get_int-IsEntry k n d map h e = elim (Bool-cases (kept k)) [
    | inl y ↦ rw (e, y, get_int) (strtol-decimal n (h.0 y))
    | inr y ↦ rw (e, y, get_int) (sym (ap number_in (h.1 y)))
  ]

  pub get_bool-IsEntry :
      (k : List ℕ) (b d : Bool) (map : StringMap)
      → IsEntry inet_ntoa kept inet_addr (record { key = k; value = flag b; default = flag d })
      → get k map ≡ (if kept k then text_of inet_ntoa kept (flag b) else none)
      → get_bool k d map ≡ b
  unfolding get_bool text_of same_text lower
  get_bool-IsEntry k b d map h e = elim (Bool-cases (kept k)) [
    | inl y ↦ rw (e, y, get_bool) (yes_read b)
    | inr y ↦ rw (e, y, get_bool) (sym (ap flag_in (h.1 y)))
  ]
    where
      yes_read :
          (b : Bool)
          → (same_text (yes b) yes_text
              || same_text (yes b) true_text
              || same_text (yes b) (b'1' ∷ []))
            ≡ b
      yes_read true = refl
      yes_read false = refl

  pub get-IsEntry :
      (k : List ℕ) (t : Option (List ℕ)) (map : StringMap)
      → IsEntry inet_ntoa kept inet_addr (record { key = k; value = text t; default = text none })
      → get k map ≡ (if kept k then text_of inet_ntoa kept (text t) else none)
      → get k map ≡ t
  unfolding text_of
  get-IsEntry k t map h e = elim (Bool-cases (kept k)) [
    | inl y ↦ rw (e, y) refl
    | inr y ↦ rw (e, y) (ap text_in (sym (h.1 y)))
  ]

  pub get_inet_addr-IsEntry :
      (k : List ℕ) (a : ℕ) (map : StringMap)
      → IsEntry inet_ntoa kept inet_addr
          (record { key = k; value = address a; default = address 0 })
      → get k map ≡ (if kept k then text_of inet_ntoa kept (address a) else none)
      → get_inet_addr inet_addr k map ≡ a
  unfolding get_inet_addr text_of
  get_inet_addr-IsEntry k a map h e = elim (Bool-cases (kept k)) [
    | inl y ↦ rw (e, y, get_inet_addr) (h.0 y).2
    | inr y ↦ rw (e, y, get_inet_addr) (sym (ap number_in (h.1 y)))
  ]
