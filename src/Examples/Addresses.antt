-- ===== src/Examples/Addresses.antt =====
-- The address lists, the limit of connections, and the sessions, at concrete inputs.
use game_login.Base.{ℕ, ◌*◌, ◌^◌, ◌≤◌, ◌<◌, ◌≡◌, true, false, ◌||◌, List, [], ◌∷◌, some, arith, All}
use game_login.Base.OrderedMap.{lookup}
use game_login.Ip.Access.{no_connections}
use game_login.Ip.Access.Counts.{connections, Call, connects, closes}
use game_login.Ip.Access.History.{run, count_run, run_refines}
use game_login.Ip.Ranges.{IpRecord, add_record, ip_exists, host_order, dotted}
use game_login.Ip.Ranges.Cover.{within, covered, IsTable, covered-add_record, ip_exists-covered}
use game_login.Ip.Ranges.Parse.{
  load, read_line, parse_line, parse_dotted, parse_end, default_end, strtol,
}
use game_login.Ip.Ranges.Loaded.{accepted, load-accepted, zero_range_lost}
use game_login.Ip.Sessions.{find_session_id}
use game_login.Ip.Sessions.Answers as Answers

-- Two connections of one address under a limit of one, and one of another.
abbrev calls : List Call
calls = connects 7 ∷ connects 7 ∷ connects 8 ∷ closes 7 ∷ []

run_refines_example :
    (connections (run 1 calls no_connections).0 ≡ (count_run 1 calls (λ ip. 0)).0)
    × ((run 1 calls no_connections).1 ≡ (count_run 1 calls (λ ip. 0)).1)
    × ((ip : ℕ) → connections (run 1 calls no_connections).0 ip ≤ 1)
run_refines_example = run_refines 1 calls

abbrev table : List IpRecord
table = record { begin = 10; end = 20 } ∷ record { begin = 30; end = 40 } ∷ []

abbrev bridge : IpRecord
bridge = record { begin = 20; end = 30 }

covered-add_record_example :
    IsTable (add_record bridge table)
    × ((a : ℕ) → covered a (add_record bridge table) ≡ (within a bridge || covered a table))
covered-add_record_example =
    covered-add_record 20 30 (omega arith) (omega arith) (omega arith) table (omega arith)

ip_exists-covered_example : ip_exists (15 * 2 ^ 24) table ≡ covered (host_order (15 * 2 ^ 24)) table
ip_exists-covered_example = ip_exists-covered (15 * 2 ^ 24) table (omega arith)

-- "1.2.3.4-1.2.3.9" and a line that does not parse.
abbrev lines : List (List ℕ)
lines =
    (b'1' ∷ b'.' ∷ b'2' ∷ b'.' ∷ b'3' ∷ b'.' ∷ b'4' ∷ b'-' ∷ b'1' ∷ b'.' ∷ b'2' ∷ b'.' ∷ b'3' ∷ b'.'
      ∷ b'9' ∷ [])
    ∷ (b'x' ∷ [])
    ∷ []

above_zero : All (λ new. 0 < new.begin) (accepted lines)
unfolding accepted read_line parse_line parse_dotted parse_end default_end strtol dotted
above_zero = (omega arith, tt)

load-accepted_example :
    IsTable (load (some lines) []).0
    × ((ip : ℕ) → ip_exists ip (load (some lines) []).0 ≡ covered (host_order ip) (accepted lines))
load-accepted_example = load-accepted lines [] above_zero

zero_range_lost_example :
    (within (host_order 0) (record { begin = 0; end = 5 }) ≡ true)
    × (ip_exists 0 (add_record (record { begin = 0; end = 5 }) table) ≡ false)
zero_range_lost_example =
    zero_range_lost 5 0 (record { begin = 10; end = 20 }) (record { begin = 30; end = 40 } ∷ [])
      (omega arith) (omega arith) (unfold host_order dotted in omega arith)
      (unfold host_order dotted in omega arith)

abbrev session_calls : List Answers.Call
session_calls = Answers.add_call 5 77 ∷ Answers.add_call 5 78 ∷ Answers.del_call 6 ∷ []

run_lem_example :
    Answers.IsSessions (Answers.run session_calls [])
    × ((i : ℕ)
        → find_session_id i (Answers.run session_calls [])
          ≡ Answers.sessions_after session_calls (λ j. find_session_id j []) i)
run_lem_example = Answers.run_lem session_calls [] (tt, λ i e. unfold lookup in cc)
