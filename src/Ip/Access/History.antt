-- ===== src/Ip/Access/History.antt =====
-- Any history of connections and closings: the maps follow the counts, and the counts the limit.
use game_login.Base.{ℕ, ◌≤◌, ◌≡◌, refl, Bool, List, [], ◌∷◌, arith, ap₂}
use game_login.Base.OrderedMap.{lookup}
use game_login.Ip.Access.{AccessMaps, no_connections}
use game_login.Ip.Access.Counts.{
  IsAccess, connections, Call, connects, closes, step, count_step, step_counts, step-IsAccess,
}

-- The maps after a list of calls, and the answers, first call first.
pub run : ℕ → List Call → AccessMaps → AccessMaps × List Bool
run limit [] maps = (maps, [])
run limit (c ∷ cs) maps =
    let (next, answer) = step limit c maps in
    let (last, answers) = run limit cs next in (last, answer ∷ answers)

abbrev pub count_run : ℕ → List Call → (ℕ → ℕ) → (ℕ → ℕ) × List Bool
count_run limit [] counts = (counts, [])
count_run limit (c ∷ cs) counts =
    let (next, answer) = count_step limit c counts in
    let (last, answers) = count_run limit cs next in (last, answer ∷ answers)

pub no_connections-IsAccess : IsAccess no_connections
unfolding lookup
no_connections-IsAccess = record { ordered = λ i. tt; positive = λ i ip n e. cc }

run_counts :
    (limit : ℕ) (cs : List Call) (maps : AccessMaps)
    → IsAccess maps
    → (connections (run limit cs maps).0 ≡ (count_run limit cs (connections maps)).0)
      × ((run limit cs maps).1 ≡ (count_run limit cs (connections maps)).1)
unfolding run
run_counts limit [] maps v = (refl, refl)
run_counts limit (c ∷ cs) maps v =
    let (same, answer) = step_counts limit c maps v in
    let (ih, answers) = run_counts limit cs (step limit c maps).0 (step-IsAccess limit c maps v) in
    (rw (← same) ih, rw (← same) (ap₂ ◌∷◌ answer answers))

abbrev Within : ℕ → (ℕ → ℕ) → Type 0
Within limit counts = (ip : ℕ) → counts ip ≤ limit

count_step-Within :
    (limit : ℕ) (c : Call) (counts : ℕ → ℕ)
    → Within limit counts
    → Within limit (count_step limit c counts).0
count_step-Within limit (connects ip) counts h = λ j. ground (arith, h j)
count_step-Within limit (closes ip) counts h = λ j. ground (arith, h j)

count_run-Within :
    (limit : ℕ) (cs : List Call) (counts : ℕ → ℕ)
    → Within limit counts
    → Within limit (count_run limit cs counts).0
count_run-Within limit [] counts h = h
count_run-Within limit (c ∷ cs) counts h =
    count_run-Within limit cs _ (count_step-Within limit c counts h)

-- From the empty maps, after any history under a limit, the maps hold for each address the count
-- that `count_run` keeps, every answer is the one that the counts call for, and with the limit on no
-- address has more connections than the limit.
pub run_refines :
    (limit : ℕ) (cs : List Call)
    → (connections (run limit cs no_connections).0 ≡ (count_run limit cs (λ ip. 0)).0)
      × ((run limit cs no_connections).1 ≡ (count_run limit cs (λ ip. 0)).1)
      × ((ip : ℕ) → connections (run limit cs no_connections).0 ip ≤ limit)
run_refines limit cs =
    let (same, answers) = run_counts limit cs no_connections no_connections-IsAccess in
    (
      rw (← empty) same,
      rw (← empty) answers,
      λ ip. rw same (count_run-Within limit cs (connections no_connections) none_within ip),
    )
  where
    empty : connections no_connections ≡ (λ ip. 0)
    empty = unfold connections lookup in refl

    none_within : Within limit (connections no_connections)
    none_within = λ ip. rw empty (omega arith)
