-- ===== src/Timers/Due.antt =====
-- Which timers go off in a round of `RunTimer`.
use game_login.Base.{ℕ, ◌+◌, ◌<◌, ◌≡◌, refl, ap, ◌∙◌, List, [], ◌∷◌, arith, leb, if◌then◌else◌, All}
use game_login.Timers.{Registration}
use game_login.Timers.Order.{Entry, insert_entry, entry_of, insert_all, From}

-- The timers up to the time `now`, and the later ones.
unfoldable pub due : ℕ → List Entry → List Entry
due now [] = []
due now (e ∷ es) = if leb e.at now then e ∷ due now es else due now es

unfoldable pub pending : ℕ → List Entry → List Entry
pending now [] = []
pending now (e ∷ es) = if leb e.at now then pending now es else e ∷ pending now es

abbrev pub objects : List Entry → List ℕ
objects [] = []
objects (e ∷ es) = e.object ∷ objects es

module _ (now : ℕ) where
  due-insert_entry :
      (e : Entry) (es : List Entry) → now < e.at → due now (insert_entry e es) ≡ due now es
  unfolding due insert_entry
  due-insert_entry e [] h = ground arith
  due-insert_entry e (x ∷ xs) h = ground (arith, due-insert_entry e xs)

  pending-insert_entry :
      (e : Entry) (es : List Entry)
      → now < e.at
      → pending now (insert_entry e es) ≡ insert_entry e (pending now es)
  unfolding pending insert_entry
  pending-insert_entry e [] h = ground arith
  pending-insert_entry e (x ∷ xs) h = ground (arith, pending-insert_entry e xs)

  abbrev pub Later : List Registration → Type 0
  Later rs = All (λ (r : Registration). now < r.milisec + r.now) rs

  pub due-insert_all :
      (rs : List Registration) (es : List Entry)
      → Later rs
      → (due now (insert_all rs es) ≡ due now es)
        × (pending now (insert_all rs es) ≡ insert_all rs (pending now es))
  unfolding insert_all
  due-insert_all [] es h = (refl, refl)
  due-insert_all (r ∷ rs) es h =
      let (d, p) = due-insert_all rs (insert_entry (entry_of r) es) h.1 in
      (
        d ∙ due-insert_entry (entry_of r) es h.0,
        p ∙ ap (insert_all rs) (pending-insert_entry (entry_of r) es h.0),
      )

  -- Behind a timer that is not due none is.
  pub none_due :
      (lo : ℕ) (es : List Entry) → now < lo → From lo es → (due now es ≡ []) × (pending now es ≡ es)
  unfolding due pending
  none_due lo [] h s = (refl, refl)
  none_due lo (e ∷ es) h s = let (d, p) = none_due e.at es (omega arith) s.1 in ground (arith, d, p)

-- The entries after the callbacks of the timers that go off.
unfoldable pub registered : (ℕ → List Registration) → List Entry → List Entry → List Entry
registered on_timer [] es = es
registered on_timer (d ∷ ds) es = registered on_timer ds (insert_all (on_timer d.object) es)
