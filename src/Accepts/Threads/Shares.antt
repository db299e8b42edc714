-- ===== src/Accepts/Threads/Shares.antt =====
-- What a step of a thread does to the counts, and the share that each thread has in them.
use game_login.Base.{
  ℕ, ◌+◌, ◌≤◌, ◌<◌, ◌≡◌, refl, ◌∙◌, Option, none, some, ltb, leb, ◌==◌, arith, length,
  if◌then◌else◌, Bool-cases, inl, inr,
}
use game_login.Base.OrderedMap.{lookup}
use game_login.Ip.Access.Counts.{IsAccess, connections}
use game_login.Accepts.Limits.{
  of_address, of_address-insert, of_address-erase, length-insert, length-erase, set_access_facts,
  del_access_facts,
}
use game_login.Accepts.Threads.{
  Phase, waits, checked, allowed, made, closing, uncounted, erased, Order, take_client, close, Hall,
  take_handle, on_close_step, tick,
}

-- A thread whose socket is in `m_SocketCount` and not among the open ones.
abbrev pub counts : Phase → ℕ
counts waits = 0
counts (checked s ip) = 0
counts (allowed s ip) = 0
counts (made s ip) = 1
counts (closing s ip) = 1
counts (uncounted s ip) = 0
counts (erased s ip) = 0

-- A thread that is past the test of the limit and has not yet counted.
abbrev pub passed : Phase → ℕ
passed waits = 0
passed (checked s ip) = 1
passed (allowed s ip) = 1
passed (made s ip) = 0
passed (closing s ip) = 0
passed (uncounted s ip) = 0
passed (erased s ip) = 0

-- A thread whose socket is in `IPaccessLimit` under an address, and not among the open ones.
abbrev pub holds : ℕ → Phase → ℕ
holds j waits = 0
holds j (checked s ip) = 0
holds j (allowed s ip) = if ip == j then 1 else 0
holds j (made s ip) = if ip == j then 1 else 0
holds j (closing s ip) = if ip == j then 1 else 0
holds j (uncounted s ip) = if ip == j then 1 else 0
holds j (erased s ip) = if ip == j then 1 else 0

-- The counts, with what the threads have of them.
pub record Counted (socket_limit ip_limit n : ℕ) (hall : Hall) (a b : ℕ) (f : ℕ → ℕ) : Type 0 where
  pub sound : IsAccess hall.server.access
  pub sockets : hall.server.socket_count ≡ length hall.open_sockets + a
  pub addresses :
      (ip : ℕ) → connections hall.server.access ip ≡ of_address ip hall.open_sockets + f ip
  pub most : hall.server.socket_count + b < socket_limit + n
  pub few : (ip : ℕ) → connections hall.server.access ip ≤ ip_limit

-- The system gives a new connection a handle that no open socket has.
abbrev pub IsFresh : Phase → Hall → Type 0
IsFresh waits hall = Unit
IsFresh (checked s ip) hall = Unit
IsFresh (allowed s ip) hall = Unit
IsFresh (made s ip) hall = lookup s hall.open_sockets ≡ none
IsFresh (closing s ip) hall = Unit
IsFresh (uncounted s ip) hall = Unit
IsFresh (erased s ip) hall = Unit

module _ (socket_limit ip_limit : ℕ) (on : 0 < ip_limit) (n : ℕ) where
  take_handle-Counted :
      (s : ℕ) (q : Option ℕ) (hall : Hall) (a b a1 b1 : ℕ) (f f1 : ℕ → ℕ)
      → Counted socket_limit ip_limit n hall a b f
      → lookup s hall.open_sockets ≡ q
      → let r = take_handle s q hall in
        (a1 + 0 ≡ a + counts r.1)
        → (b1 + 0 ≡ b + passed r.1)
        → ((j : ℕ) → f1 j + 0 ≡ f j + holds j r.1)
        → Counted socket_limit ip_limit n r.0 a1 b1 f1
  unfolding take_handle
  take_handle-Counted s none hall a b a1 b1 f f1 v e ea eb ef = record {
    sound = v.sound;
    sockets = omega (arith, v.sockets, ea);
    addresses = λ j. omega (arith, v.addresses j, ef j);
    most = omega (arith, v.most, eb);
    few = v.few;
  }
  take_handle-Counted s (some ip) hall a b a1 b1 f f1 v e ea eb ef = record {
    sound = v.sound;
    sockets = omega (arith, v.sockets, ea, length-erase s ip hall.open_sockets e);
    addresses =
        λ j. omega (arith, v.addresses j, ef j, of_address-erase s ip j hall.open_sockets e);
    most = omega (arith, v.most, eb);
    few = v.few;
  }

  pub tick-Counted :
      (o : Order) (p : Phase) (hall : Hall) (a b a1 b1 : ℕ) (f f1 : ℕ → ℕ)
      → Counted socket_limit ip_limit n hall a b f
      → IsFresh p hall
      → counts p ≤ a
      → ((j : ℕ) → holds j p ≤ f j)
      → b1 ≤ n
      → let r = tick socket_limit ip_limit o p hall in
        (a1 + counts p ≡ a + counts r.1)
        → (b1 + passed p ≡ b + passed r.1)
        → ((j : ℕ) → f1 j + holds j p ≡ f j + holds j r.1)
        → Counted socket_limit ip_limit n r.0 a1 b1 f1
  unfolding tick on_close_step
  tick-Counted (take_client s ip) waits hall a b a1 b1 f f1 v fresh ca fa nb =
      elim (Bool-cases (leb socket_limit hall.server.socket_count)) [
        | inl e ↦ rw e (λ ea eb ef. record {
          sound = v.sound;
          sockets = omega (arith, v.sockets, ea);
          addresses = λ j. omega (arith, v.addresses j, ef j);
          most = omega (arith, v.most, eb);
          few = v.few;
        })
        | inr e ↦ rw e (λ ea eb ef. record {
          sound = v.sound;
          sockets = omega (arith, v.sockets, ea);
          addresses = λ j. omega (arith, v.addresses j, ef j);
          most = ground (arith, e, nb);
          few = v.few;
        })
      ]
  tick-Counted (close s) waits hall a b a1 b1 f f1 v fresh ca fa nb =
      take_handle-Counted s (lookup s hall.open_sockets) hall a b a1 b1 f f1 v refl
  tick-Counted o (checked s ip) hall a b a1 b1 f f1 v fresh ca fa nb =
      let (sound, answer, after) =
        set_access_facts socket_limit ip_limit on ip hall.server.access v.sound in
      elim (Bool-cases (ltb (connections hall.server.access ip) ip_limit)) [
        | inl e ↦ rw (answer ∙ e) (λ ea eb ef. record {
          sound = sound;
          sockets = omega (arith, v.sockets, ea);
          addresses = λ j. ground (arith, after j, v.addresses j, ef j, e);
          most = omega (arith, v.most, eb);
          few = λ j. ground (arith, after j, v.few j, e);
        })
        | inr e ↦ rw (answer ∙ e) (λ ea eb ef. record {
          sound = sound;
          sockets = omega (arith, v.sockets, ea);
          addresses = λ j. ground (arith, after j, v.addresses j, ef j, e);
          most = omega (arith, v.most, eb);
          few = λ j. ground (arith, after j, v.few j, e);
        })
      ]
  tick-Counted o (allowed s ip) hall a b a1 b1 f f1 v fresh ca fa nb = λ ea eb ef. record {
    sound = v.sound;
    sockets = omega (arith, v.sockets, ea);
    addresses = λ j. omega (arith, v.addresses j, ef j);
    most = omega (arith, v.most, eb);
    few = v.few;
  }
  tick-Counted o (made s ip) hall a b a1 b1 f f1 v fresh ca fa nb = λ ea eb ef. record {
    sound = v.sound;
    sockets = omega (arith, v.sockets, ea, length-insert s ip hall.open_sockets fresh);
    addresses =
        λ j. omega (arith, v.addresses j, ef j, of_address-insert s ip j hall.open_sockets fresh);
    most = omega (arith, v.most, eb);
    few = v.few;
  }
  tick-Counted o (closing s ip) hall a b a1 b1 f f1 v fresh ca fa nb = λ ea eb ef. record {
    sound = v.sound;
    sockets = omega (arith, v.sockets, ea, ca);
    addresses = λ j. omega (arith, v.addresses j, ef j);
    most = omega (arith, v.most, eb);
    few = v.few;
  }
  tick-Counted o (uncounted s ip) hall a b a1 b1 f f1 v fresh ca fa nb = λ ea eb ef. record {
    sound = v.sound;
    sockets = omega (arith, v.sockets, ea);
    addresses = λ j. omega (arith, v.addresses j, ef j);
    most = omega (arith, v.most, eb);
    few = v.few;
  }
  tick-Counted o (erased s ip) hall a b a1 b1 f f1 v fresh ca fa nb =
      let (sound, after) =
        del_access_facts socket_limit ip_limit on ip hall.server.access v.sound
          (ground (arith, fa ip, v.addresses ip)) in
      λ ea eb ef. record {
        sound = sound;
        sockets = omega (arith, v.sockets, ea);
        addresses = λ j. omega (arith, after j, v.addresses j, ef j);
        most = omega (arith, v.most, eb);
        few = λ j. omega (arith, after j, v.few j);
      }
