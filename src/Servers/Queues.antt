-- ===== src/Servers/Queues.antt =====
-- The waiting queues of `CServerList`: `SetServerQueueSize`, and the packet of `MakeQueueSizePacket`.
use game_login.Base.{
  ℕ, zero, suc, ◌+◌, ◌-◌, ◌%◌, ◌^◌, ◌≤◌, ◌<◌, ◌≡◌, refl, ap, ◌∙◌, List, [], ◌∷◌, ◌++◌, Option, none,
  some, ltb, ◌==◌, if◌then◌else◌, arith, All, length, get_elem?, set, replicate, length-append,
}
use mathlib.Core.Option as Opt
use game_login.Base.OrderedMap.{lookup, insert, adjust, Ordered, lookup-insert, lookup-adjust}
use game_login.Cipher.Blowfish.Words.{bytes, word, word_bytes}

-- A queue: its size and its waiting time.
abbrev pub Queue : Type 0
Queue = ℕ × ℕ

abbrev pub Queues : Type 0
Queues = List (ℕ × List Queue)

abbrev pub empty_queue : Queue
empty_queue = (0, 0)

-- `resize` to more entries.
pub grow : ℕ → List Queue → List Queue
grow n queues = queues ++ replicate (n - length queues) empty_queue

-- `SetServerQueueSize`; a level below zero is `none`, and `m_queueSizes[id]` makes a server's entry.
pub set_server_queue_size : ℕ → Option ℕ → ℕ → ℕ → Queues → Queues
set_server_queue_size id none size time queues = queues
set_server_queue_size id (some level) size time queues =
    adjust id (λ sizes. set (grow (level + 1) sizes) level (size, time)) (insert id [] queues)

-- The entries of one server from the level on, and the `count` of them.
pub push_levels : ℕ → ℕ → List Queue → List ℕ
push_levels id level [] = []
push_levels id level ((size, time) ∷ queues) =
    id ∷ level ∷ bytes size (bytes time (push_levels id ((level + 1) % 256) queues))

pub push_servers : Queues → List ℕ
push_servers [] = []
push_servers ((id, sizes) ∷ queues) = push_levels id 0 sizes ++ push_servers queues

-- The number of entries; `count` is a `char`.
unfoldable pub count_queues : Queues → ℕ
count_queues [] = 0
count_queues ((id, sizes) ∷ queues) = length sizes + count_queues queues

-- `MakeQueueSizePacket` on an empty buffer; `AC_QUEUE_SIZE` is 11.
pub make_queue_size_packet : Queues → List ℕ
make_queue_size_packet queues = 0 ∷ 0 ∷ 11 ∷ (count_queues queues % 256) ∷ push_servers queues

abbrev pub queue_at : ℕ → ℕ → Queues → Option Queue
queue_at id level queues = elim (lookup id queues) [
  | none ↦ none
  | some sizes ↦ get_elem? sizes level
]

get_elem?-replicate :
    (n l : ℕ) → get_elem? (replicate n empty_queue) l ≡ (if ltb l n then some empty_queue else none)
get_elem?-replicate zero l = ground arith
get_elem?-replicate (suc n) zero = ground arith
get_elem?-replicate (suc n) (suc l) = ground (arith, get_elem?-replicate n l)

get_elem?-grow :
    (n l : ℕ) (xs : List Queue)
    → get_elem? (grow n xs) l
      ≡ (if ltb l n then some (Opt.get_or (get_elem? xs l) empty_queue) else get_elem? xs l)
unfolding grow
get_elem?-grow n l [] = ground (arith, get_elem?-replicate n l)
get_elem?-grow zero zero (x ∷ xs) = refl
get_elem?-grow zero (suc l) (x ∷ xs) = ground (arith, get_elem?-grow zero l xs)
get_elem?-grow (suc n) zero (x ∷ xs) = ground arith
get_elem?-grow (suc n) (suc l) (x ∷ xs) = ground (arith, get_elem?-grow n l xs)

get_elem?-set :
    (xs : List Queue) (i l : ℕ) (v : Queue)
    → i < length xs
    → get_elem? (set xs i v) l ≡ (if i == l then some v else get_elem? xs l)
get_elem?-set [] i l v h = absurd (omega arith)
get_elem?-set (x ∷ xs) zero zero v h = refl
get_elem?-set (x ∷ xs) zero (suc l) v h = ground arith
get_elem?-set (x ∷ xs) (suc i) zero v h = ground arith
get_elem?-set (x ∷ xs) (suc i) (suc l) v h = ground (arith, get_elem?-set xs i l v)

length-replicate : (n : ℕ) → length (replicate n empty_queue) ≡ n
length-replicate zero = refl
length-replicate (suc n) = omega (arith, length-replicate n)

length-grow : (n : ℕ) (xs : List Queue) → n ≤ length (grow n xs)
unfolding grow
length-grow n xs = omega (
  arith,
  length-append xs (replicate (n - length xs) empty_queue),
  length-replicate (n - length xs),
)

-- In a map in the order of its keys, after a queue is set, its server has it at its level, an empty
-- queue at each lower level that it did not have, and all other queues of all servers as before.
pub queue_at-set_server_queue_size :
    (id level size time i l : ℕ) (queues : Queues)
    → Ordered 0 queues
    → queue_at i l (set_server_queue_size id (some level) size time queues) ≡ (
        if id == i
        then (if level == l
            then some (size, time)
            else if ltb l level
            then some (Opt.get_or (queue_at i l queues) empty_queue)
            else queue_at i l queues)
        else queue_at i l queues)
unfolding set_server_queue_size
queue_at-set_server_queue_size id level size time i l queues o =
    let sizes = Opt.get_or (lookup i queues) [] in
    ground (
      arith,
      lookup-adjust id i (λ sizes. set (grow (level + 1) sizes) level (size, time))
          (insert id [] queues),
      lookup-insert 0 id i [] queues o,
      get_elem?-set (grow (level + 1) sizes) level l (size, time),
      length-grow (level + 1) sizes,
      get_elem?-grow (level + 1) l sizes,
    )

-- An entry of the packet: the server, the level, and the queue.
abbrev pub Entry : Type 0
Entry = ℕ × ℕ × ℕ × ℕ

pub level_entries : ℕ → ℕ → List Queue → List Entry
level_entries id level [] = []
level_entries id level ((size, time) ∷ queues) =
    (id, level, size, time) ∷ level_entries id (level + 1) queues

pub entries : Queues → List Entry
entries [] = []
entries ((id, sizes) ∷ queues) = level_entries id 0 sizes ++ entries queues

-- What a client takes from the packet: as many entries as it says, up to its end.
pub take_entries : ℕ → List ℕ → Option (List Entry)
take_entries zero [] = some []
take_entries (suc n) (id ∷ level ∷ a ∷ b ∷ c ∷ d ∷ e ∷ f ∷ g ∷ h ∷ rest) =
    Opt.map (λ es. (id, level, word a b c d, word e f g h) ∷ es) (take_entries n rest)
take_entries _ _ = none

pub take_packet : List ℕ → Option (List Entry)
take_packet (_ ∷ _ ∷ kind ∷ n ∷ rest) =
    let es = take_entries n rest in if kind == 11 then es else none
take_packet _ = none

-- What the packet can carry of the list: at most 255 entries, and 32 bit numbers.
abbrev pub IsQueue : Queue → Type 0
IsQueue (size, time) = (size < 2 ^ 32) × (time < 2 ^ 32)

take_entries-levels :
    (id level m n : ℕ) (sizes : List Queue) (rest : List ℕ) (es : List Entry)
    → level + length sizes < 256
    → All IsQueue sizes
    → m ≡ length sizes + n
    → take_entries n rest ≡ some es
    → take_entries m (push_levels id level sizes ++ rest)
      ≡ some (level_entries id level sizes ++ es)
unfolding take_entries push_levels level_entries
take_entries-levels id level m n [] rest es h k e f =
    let same : m ≡ n = omega arith in ap (λ t. take_entries t rest) same ∙ f
take_entries-levels id level zero n ((size, time) ∷ sizes) rest es h k e f = absurd (omega arith)
take_entries-levels id level (suc m) n ((size, time) ∷ sizes) rest es h k e f =
    let next : (level + 1) % 256 ≡ level + 1 = omega arith in
    ground (
      arith,
      next,
      word_bytes size k.0.0,
      word_bytes time k.0.1,
      take_entries-levels id (level + 1) m n sizes rest es,
    )

take_entries-push_servers :
    (queues : Queues)
    → count_queues queues < 256
    → All (λ q. All IsQueue q.1) queues
    → take_entries (count_queues queues) (push_servers queues) ≡ some (entries queues)
unfolding count_queues push_servers entries take_entries
take_entries-push_servers [] small h = refl
take_entries-push_servers ((id, sizes) ∷ queues) small h =
    take_entries-levels id 0 (length sizes + count_queues queues) (count_queues queues) sizes
      (push_servers queues) (entries queues) (omega arith) h.0 refl
      (take_entries-push_servers queues (omega arith) h.1)

-- If there are at most 255 queues, of 32 bit sizes and waiting times, the packet made of the list gives
-- back each queue with its server and its level, in the order of the servers and the levels.
pub take_packet-make_queue_size_packet :
    (queues : Queues)
    → count_queues queues < 256
    → All (λ q. All IsQueue q.1) queues
    → take_packet (make_queue_size_packet queues) ≡ some (entries queues)
unfolding take_packet make_queue_size_packet
take_packet-make_queue_size_packet queues small h =
    let n : count_queues queues % 256 ≡ count_queues queues = omega arith in
    rw (n) (take_entries-push_servers queues small h)
