-- ===== src/Sockets/Lifetime/Calls.antt =====
-- The references that a thread holds as it goes through its calls.
use game_login.Base.{
  ℕ, zero, suc, ◌+◌, ◌-◌, ◌<◌, ◌≡◌, refl, Bool, true, false, List, [], ◌∷◌, ◌++◌, Option, none,
  some, arith, append_assoc,
}
use game_login.Sockets.Lifetime.{
  Op, add_ref, release_ref, receive, send, post, close, unlink, Ending, reads_on, closes, read,
  on_read, start_send, write_all, on_write_callback, Job, received, sent, handled, timer,
  send_socket, calls_of, begin, IsWhole,
}

-- A thread with `h` references holds one at each call, and none behind the last.
abbrev pub Safe : ℕ → List Op → Type 0
Safe h [] = h ≡ 0
Safe h (add_ref ∷ p) = (0 < h) × Safe (h + 1) p
Safe h (release_ref ∷ p) = (0 < h) × Safe (h - 1) p
Safe h (receive ∷ p) = (0 < h) × Safe (h - 1) p
Safe h (send ∷ p) = (0 < h) × Safe (h - 1) p
Safe h (post ∷ p) = (0 < h) × Safe (h - 1) p
Safe h (close ∷ p) = (0 < h) × Safe h p
Safe h (unlink ∷ p) = (0 < h) × Safe h p

-- Calls that leave a thread with the one reference that it came with.
abbrev pub Keeps : List Op → Type 0
Keeps p = (q : List Op) → Safe 1 q → Safe 1 (p ++ q)

abbrev pub last_calls : List Op
last_calls = release_ref ∷ []

read-Keeps : (started : Bool) → Keeps (read started)
unfolding read
read-Keeps true q h = (omega arith, (omega arith, h))
read-Keeps false q h = (omega arith, (omega arith, (omega arith, h)))

pub on_read-Keeps : (packets : ℕ) (ending : Ending) → Keeps (on_read packets ending)
unfolding on_read
on_read-Keeps zero (reads_on started) q h = read-Keeps started q h
on_read-Keeps zero closes q h = (omega arith, h)
on_read-Keeps (suc n) ending q h = (omega arith, (omega arith, on_read-Keeps n ending q h))

start_send-Keeps : (w : Option Bool) → Keeps (start_send w)
unfolding start_send
start_send-Keeps none q h = h
start_send-Keeps (some true) q h = (omega arith, (omega arith, h))
start_send-Keeps (some false) q h = (omega arith, (omega arith, h))

write_all-Keeps : (ws : List (Option Bool)) → Keeps (write_all ws)
unfolding write_all
write_all-Keeps [] q h = h
write_all-Keeps (w ∷ ws) q h =
    rw (append_assoc) (start_send-Keeps w (write_all ws ++ q) (write_all-Keeps ws q h))

pub release-Safe : Safe 1 last_calls
release-Safe = (omega arith, refl)

close-Safe : Safe 1 (close ∷ last_calls)
close-Safe = (omega arith, (omega arith, refl))

pub calls_of-Safe : (job : Job) → IsWhole (begin job) → Safe 1 (calls_of job)
unfolding calls_of on_write_callback
calls_of-Safe (received false packets ending) w = close-Safe
calls_of-Safe (received true packets ending) w =
    on_read-Keeps packets ending last_calls release-Safe
calls_of-Safe (sent false whole n) w = close-Safe
calls_of-Safe (sent true true n) w = start_send-Keeps n last_calls release-Safe
calls_of-Safe (sent true false n) w = cc
calls_of-Safe (handled ws false) w = write_all-Keeps ws last_calls release-Safe
calls_of-Safe (handled ws true) w = write_all-Keeps ws (close ∷ last_calls) close-Safe
calls_of-Safe (timer false) w = release-Safe
calls_of-Safe (timer true) w = close-Safe
calls_of-Safe (send_socket n) w = start_send-Keeps n last_calls release-Safe

-- How often a thread is still to take the object off the table.
abbrev pub unlinks : List Op → ℕ
unlinks [] = 0
unlinks (unlink ∷ p) = suc (unlinks p)
unlinks (_ ∷ p) = unlinks p

pub unlinks-positive : (h : ℕ) (p : List Op) → Safe h p → 0 < unlinks p → 0 < h
unlinks-positive h [] s u = absurd (omega arith)
unlinks-positive h (add_ref ∷ p) s u = s.0
unlinks-positive h (release_ref ∷ p) s u = s.0
unlinks-positive h (receive ∷ p) s u = s.0
unlinks-positive h (send ∷ p) s u = s.0
unlinks-positive h (post ∷ p) s u = s.0
unlinks-positive h (close ∷ p) s u = s.0
unlinks-positive h (unlink ∷ p) s u = s.0
