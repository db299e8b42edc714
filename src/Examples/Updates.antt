-- ===== src/Examples/Updates.antt =====
-- The updates of clients at concrete inputs.
use game_login.Base.{
  ℕ, ◌≡◌, refl, false, List, [], ◌∷◌, ◌++◌, Option, none, some, ltb, ◌==◌, if◌then◌else◌, arith,
}
use game_login.Base.OrderedMap.{lookup}
use game_login.Wire.Framing.{Protocol, read_len, on_read, post}
use game_login.Clients.{Resources, init_client_version_res, select_version, writes}
use game_login.Clients.Updates.{
  refused, served, update, select_version-init_client_version_res, on_read-select_version,
}

-- Two versions, the file of the first one only.
abbrev files : ℕ → Option (List ℕ)
files key = if key == 1 then some (80 ∷ 75 ∷ []) else none

select_version-init_client_version_res_example :
    select_version 2 (init_client_version_res files 2).1 1
    ≡ (if ltb 2 1 then some refused else if 1 == 0 then none else served 1 (files 1))
select_version-init_client_version_res_example = select_version-init_client_version_res files 2 1

abbrev resources : Resources
resources = (1, 80 ∷ 75 ∷ []) ∷ []

on_read-select_version_example :
    (out : List ℕ) × (select_version 2 resources 1
      ≡ some (record { reply = writes out; closes = false }))
    × (let p : Protocol = record { need = 2; extra = 0; less = 2; max_kind = 5 } in
        on_read p read_len (out ++ (9 ∷ []))
        ≡ post (update 1 (80 ∷ 75 ∷ [])) (on_read p read_len (9 ∷ [])))
on_read-select_version_example =
    on_read-select_version 5 2 1 resources (80 ∷ 75 ∷ []) (9 ∷ []) (omega arith) (omega arith)
      (unfold lookup in refl) (omega arith)
