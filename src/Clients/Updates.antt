-- ===== src/Clients/Updates.antt =====
-- The update that a client asks for.
use game_login.Base.{
  ℕ, zero, suc, ◌+◌, ◌/◌, ◌%◌, ◌^◌, ◌≤◌, ◌<◌, ◌≡◌, refl, ap, Bool, true, false, ◌&&◌, List, [], ◌∷◌,
  ◌++◌, Option, none, some, ltb, leb, ◌==◌, if◌then◌else◌, arith, length,
}
use game_login.Base.OrderedMap.{lookup, Ordered, lookup-insert, insert-Ordered}
use game_login.Wire.Assemble.{char}
use game_login.Wire.Framing.{Protocol, read_len, on_read, buffer_size, post}
use game_login.Wire.Framing.Sending.{frame}
use game_login.Wire.Framing.Sending.Delivery.{on_read-frame}
use game_login.Clients.{
  Resources, add_resource, load_resources, init_client_version_res, get_client_resource_by_id,
  send_resource, sends, writes, Handled, select_version,
}

add_resource_lem :
    (i key : ℕ) (o : Option (List ℕ)) (loaded : Bool × Resources)
    → Ordered 0 loaded.1
    → lookup i loaded.1 ≡ none
    → Ordered 0 (add_resource i o loaded).1
      × (lookup key (add_resource i o loaded).1 ≡ (if i == key then o else lookup key loaded.1))
unfolding add_resource
add_resource_lem i key none (fin, resources) o free =
    (o, ground (arith, ap (λ k. lookup k resources), free))
add_resource_lem i key (some file) (fin, resources) o free = (
  insert-Ordered 0 i file resources (omega arith) o,
  ground (arith, ap (λ k. lookup k resources), free, lookup-insert 0 i key file resources o),
)

lookup-load_resources :
    (files : ℕ → Option (List ℕ)) (left i : ℕ) (loaded : Bool × Resources) (key : ℕ)
    → Ordered 0 loaded.1
    → ((k : ℕ) → i ≤ k → lookup k loaded.1 ≡ none)
    → lookup key (load_resources files left i loaded).1
      ≡ (if leb i key && ltb key (i + left) then files key else lookup key loaded.1)
unfolding load_resources
lookup-load_resources files zero i loaded key o above = ground arith
lookup-load_resources files (suc left) i loaded key o above =
    let step = λ (k : ℕ). add_resource_lem i k (files i) loaded o (above i (omega arith)) in
    let next = add_resource i (files i) loaded in
    let rest =
      lookup-load_resources files left (i + 1) next key (step key).0
        (λ k h. ground (arith, h, (step k).1, above k)) in
    let same : i ≡ key → files i ≡ files key = λ h. ap files h in
    ground (arith, rest, (step key).1, same, above key)

-- The packet of an update: the command, the key and the file.
pub update : ℕ → List ℕ → List ℕ
update key file = 1 ∷ (key % 256) ∷ (key / 2 ^ 8 % 256) ∷ file

pub refused : Handled
refused = record { reply = sends (char 255 ∷ char 15 ∷ []); closes = true }

-- What a client that asks for a key comes to.
pub served : ℕ → Option (List ℕ) → Option Handled
served key none = none
served key (some file) =
    if ltb buffer_size (length file + 5)
    then none
    else some
        (record { reply = writes (frame (length file + 5) (update key file)); closes = false })

-- With the files that were there when the program started, a client that asks for a key above the
-- version is refused and closed; for a key from 1 to the version it is sent the file of the key in one
-- frame. There is no such answer for the key 0, for a file that was not there, and for a file with more
-- than 20475 bytes: then the handler goes through the null pointer or past the end of the buffer.
pub select_version-init_client_version_res :
    (files : ℕ → Option (List ℕ)) (server_version key : ℕ)
    → select_version server_version (init_client_version_res files server_version).1 key ≡ (
        if ltb server_version key
        then some refused
        else if key == 0
        then none
        else served key (files key))
unfolding select_version init_client_version_res get_client_resource_by_id send_resource served
    refused update frame
select_version-init_client_version_res files server_version key =
    let found =
      lookup-load_resources files server_version 1 (true, []) key tt
        (λ k h. unfold lookup in refl) in
    let empty : lookup {V = List ℕ} key [] ≡ none = unfold lookup in refl in
    ground (arith, found, empty)

-- For a key up to the version whose file is there and has at most 20475 bytes, the handler sends a
-- frame; a client that takes its length as the server does, and has a handler for the kind 1, posts
-- the command, the key and the whole file, and goes on with what follows in the stream.
pub on_read-select_version :
    (kinds server_version key : ℕ) (resources : Resources) (file rest : List ℕ)
    → 1 < kinds
    → key ≤ server_version
    → lookup key resources ≡ some file
    → length file + 5 ≤ buffer_size
    → (out : List ℕ) × (select_version server_version resources key
        ≡ some (record { reply = writes out; closes = false }))
      × (let p : Protocol = record { need = 2; extra = 0; less = 2; max_kind = kinds } in
          on_read p read_len (out ++ rest) ≡ post (update key file) (on_read p read_len rest))
unfolding select_version get_client_resource_by_id send_resource update frame
on_read-select_version kinds server_version key resources file rest known low e fits =
    let p : Protocol = record { need = 2; extra = 0; less = 2; max_kind = kinds } in
    (
      frame (length file + 5) (update key file),
      ground (arith, e),
      on_read-frame p (length file + 5) (update key file) rest (omega arith) (omega arith)
          (omega arith) (omega arith) (omega arith) known,
    )
