-- ===== src/Server/Opening.antt =====
-- The descriptors that the program opens at its start: the constructor and the destructor of the
-- packet socket (src/sockets/rs_socket.cpp), `main` (src/apps/RSServerCommunication.cpp), and the
-- starts of `dns_thread_function` (src/apps/RSDNSServer.cpp) and `tunnel_thread_function`
-- (src/apps/RSTunnelServer.cpp).
use mathlib.Core.Path.{subst}
use labyrinthus.Socket.Descriptor.{close_udp_socket, close-create}
use labyrinthus.Object.Value.{Object, kind_of}
use labyrinthus.Object.Description.{find_description, split_description}
use labyrinthus.Object.Typed.{IsTyped}
use labyrinthus.Object.Delete.{delete_object, blocks, delete_object-blocks}
use labyrinthus.Defines.Table.{structs}
use labyrinthus.Defines.Objects.{packet}
use labyrinthus.Socket.Received.{Holds}
use labyrinthus.Base.{
  Option, sym, ◌>>=◌, ◌+◌, ℕ, ◌≡◌, refl, Bytes, true, false, ◌∷◌, some, none, Run, done, exited,
  if◌then◌else◌,
}
use mathlib.Core.Bool.{not}
use labyrinthus.Socket.Descriptor.{Bound, local_address, create_udp_socket-Bound}
use labyrinthus.Server.Start.{new_socket, max_clients}
use labyrinthus.Server.Ready.{IsReady}
use labyrinthus.Server.Invariant.{allocated}
use labyrinthus.Base.{length, ◌<◌, inl, inr, ◌⊎◌, []}
use labyrinthus.Address.Binding.{first_binded}
use labyrinthus.Socket.Packet.{Socket}
use labyrinthus.Base.Words.{int_limit}
use labyrinthus.Base.Ints.{ℤ, pos, negsuc, is_minus_one}
use labyrinthus.Defines.Table.{rs_communication_port}
use labyrinthus.Socket.Packet.{SockAddr}
use labyrinthus.Socket.Descriptor.{Os, create_udp_socket}
use labyrinthus.Server.State.{Server}
use labyrinthus.Server.Start.{main_state}

module _ {World : Type 0} (os : Os World) where
  -- The socket of the packets, with the rest of the state of `main`
  unfoldable pub main_opens : World → SockAddr → ℕ → Bytes → World × ℤ × Run Server
  main_opens w sin slen buff =
      let (w', udp_socket) = create_udp_socket os w none rs_communication_port in
      (w', udp_socket, main_state (not (is_minus_one udp_socket)) sin slen buff)

  -- The destructor of the socket: the blocks that it deletes, its buffer the first
  unfoldable pub delete_socket : World → ℤ → Socket → World × Run ℕ
  delete_socket w udp_socket k = (
    (close_udp_socket os w udp_socket).0,
    elim k.rso_data [ none ↦ done 1 | some o ↦ delete_object o >>= λ n. done (1 + n) ],
  )

  -- The start of the DNS thread
  unfoldable pub dns_opens : World → World × Run ℤ
  dns_opens w =
      let (w', dns_socket) = create_udp_socket os w none 53 in
      if is_minus_one dns_socket then (w', exited) else (w', done dns_socket)

-- The program starts, or it exits.
abbrev pub Starts : {World : Type 0} → Os World → World → World × ℤ × Run Server → Type 0
Starts os w (w', pos fd, r) =
    (s : Server) × (r ≡ done s)
    × IsReady s.rsock
    × (os.open_in w' ≡ fd ∷ os.open_in w)
    × (os.bound_to w' fd ≡ some (local_address os none rs_communication_port))
Starts os w (w', negsuc n, r) = (r ≡ exited) × (os.open_in w' ≡ os.open_in w)

main_starts :
    (sin : SockAddr) (slen : ℕ) (buff : Bytes)
    → length buff < int_limit
    → (s : Server) × (main_state true sin slen buff ≡ done s) × IsReady s.rsock
unfolding main_state new_socket
main_starts sin slen buff small =
    let (cs, e, _, _) = allocated max_clients 0 in
    let k : Socket = record {
      is_open = true;
      sin_tmp = sin;
      slen_tmp = slen;
      buffer = buff;
      rso_data = none;
      sent = [];
    } in
    (
      record {
        rsock = k;
        my_address = none;
        registred_clients = cs;
        devices = [];
        binded_chains = [];
        binded_ip = first_binded;
        dns_requests = [];
        dns_sent = [];
        tun = [];
      },
      rw e,
      (refl, small),
    )

main_exits : (sin : SockAddr) (slen : ℕ) (buff : Bytes) → main_state false sin slen buff ≡ exited
unfolding main_state new_socket
main_exits sin slen buff = let (cs, e, _, _) = allocated max_clients 0 in rw e refl

opened-Starts :
    {World : Type 0} (os : Os World) (w : World) (r : World × ℤ) (sin : SockAddr) (slen : ℕ)
    (buff : Bytes)
    → length buff < int_limit
    → Bound os w (local_address os none rs_communication_port) r
    → Starts os w (r.0, r.1, main_state (not (is_minus_one r.1)) sin slen buff)
opened-Starts os w (w', pos fd) sin slen buff small (h, bound) =
    let (s, e, ready) = main_starts sin slen buff small in (s, e, ready, h, bound)
opened-Starts os w (w', negsuc n) sin slen buff small (e, h) = rw e (main_exits sin slen buff, h)

-- Whatever the operating system returns to socket and bind, main, with a buffer below 2^31 bytes,
-- either comes to a state whose socket is open, with one more descriptor than before, bound to the
-- port of the protocol, or exits with the descriptors that were open before.
pub main_opens-Starts :
    {World : Type 0} (os : Os World) (w : World) (sin : SockAddr) (slen : ℕ) (buff : Bytes)
    → length buff < int_limit
    → Starts os w (main_opens os w sin slen buff)
unfolding main_opens
main_opens-Starts os w sin slen buff small =
    opened-Starts os w (create_udp_socket os w none rs_communication_port) sin slen buff small
      (create_udp_socket-Bound os w none rs_communication_port)

served :
    {World : Type 0} (os : Os World) (w : World) (r : World × ℤ)
    → Bound os w (local_address os none 53) r
    → let after : World × Run ℤ = if is_minus_one r.1 then (r.0, exited) else (r.0, done r.1) in
      ((fd : ℕ) × (after.1 ≡ done (pos fd))
        × Bound os w (local_address os none 53) (after.0, pos fd))
      ⊎ ((after.1 ≡ exited) × (os.open_in after.0 ≡ os.open_in w))
served os w (w', pos fd) h = inl (fd, refl, h)
served os w (w', negsuc n) (e, h) = rw e (inr (refl, h))

-- The DNS thread has a socket of port 53, or the process ends with no more descriptors than before.
pub dns_opens-cases :
    {World : Type 0} (os : Os World) (w : World)
    → let after : World × Run ℤ = dns_opens os w in
      ((fd : ℕ) × (after.1 ≡ done (pos fd))
        × Bound os w (local_address os none 53) (after.0, pos fd))
      ⊎ ((after.1 ≡ exited) × (os.open_in after.0 ≡ os.open_in w))
unfolding dns_opens
dns_opens-cases os w =
    served os w (create_udp_socket os w none 53) (create_udp_socket-Bound os w none 53)

-- The blocks of a socket: its buffer, and the packet
abbrev socket_blocks : Option Object → ℕ
socket_blocks none = 1
socket_blocks (some o) = 1 + blocks o

packet-IsTyped : (c : ℕ) (p : Bytes) → IsTyped structs (packet c p)
unfolding IsTyped structs find_description split_description kind_of
packet-IsTyped c p = (refl, refl, (refl, (refl, tt)))

data_deleted :
    (n : ℕ) (r : Option Object)
    → Holds n r
    → elim r [ none ↦ done 1 | some o ↦ delete_object o >>= λ m. done (1 + m) ]
      ≡ done (socket_blocks r)
data_deleted n none h = refl
data_deleted n (some o) (c, p, form, _) =
    rw (delete_object-blocks structs o (subst (IsTyped structs) (sym form) (packet-IsTyped c p)))

-- The destructor of a socket that was opened and then received deletes the buffer and the packet
-- whole, and leaves the descriptors that were open before.
pub delete_socket-create :
    {World : Type 0} (os : Os World) (w : World) (port n : ℕ) (k : Socket)
    → Holds n k.rso_data
    → let (w', fd) = create_udp_socket os w none port in
      let (w₂, r) = delete_socket os w' fd k in
      (os.open_in w₂ ≡ os.open_in w) × (r ≡ done (socket_blocks k.rso_data))
unfolding delete_socket
delete_socket-create os w port n k h = (close-create os w none port, data_deleted n k.rso_data h)
