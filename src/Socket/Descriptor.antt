-- ===== src/Socket/Descriptor.antt =====
-- The descriptors behind the sockets and the tunnel device (src/sockets/udpsocket.cpp, tun.cpp,
-- apps/RSTunnelServer.cpp). The operating system is a parameter.
use mathlib.Core.Path.{subst}
use labyrinthus.Base.{
  zero, ap, suc, arith, sym, ◌≢◌, length, ◌<◌, All, ◌==◌, ℕ, ◌%◌, ◌^◌, ◌≡◌, refl, ◌∙◌, Bytes, Bool,
  true, false, ◌⊎◌, List, [], ◌∷◌, ◌++◌, Option, some, none, Run, done, exited, take, codes,
  if◌then◌else◌, Bool-cases, inl, inr,
}
use labyrinthus.Base.Ints.{ℤ, pos, negsuc, is_negative, is_minus_one, is_zero}
use labyrinthus.Socket.Packet.{SockAddr, af_inet}

-- What `ioctl` is given to attach a descriptor to a tunnel device
pub record Ifreq : Type 0 where
  pub ifr_name : Bytes
  pub ifr_flags : ℕ

-- What comes of a call that opens: a descriptor that was not there, or -1 and nothing
abbrev pub Opened : {World : Type 0} → (World → List ℕ) → World → World × ℤ → Type 0
Opened open_in w (w', pos fd) = open_in w' ≡ fd ∷ open_in w
Opened open_in w (w', negsuc n) = (n ≡ 0) × (open_in w' ≡ open_in w)

-- The text of an array of char: what stands before its first 0
unfoldable pub c_string : Bytes → Bytes
c_string [] = []
c_string (c ∷ cs) = let rest = c ∷ c_string cs in if c == 0 then [] else rest

-- Names that TUNSETIFF takes as they are: for none at all and for a pattern with `%` the kernel picks
-- a name, and a longer one is cut.
abbrev pub IsPlain : Bytes → Type 0
IsPlain name = (0 < length name) × (length name < 16) × All (λ c. (0 < c) × (c ≢ 37)) name

-- The calls of the operating system that the program makes, and what their manual says of them.
-- `open_in` lists the descriptors that are open, `attached_to` has the name of the device behind a
-- descriptor.
pub record Os (World : Type 0) : Type 0 where
  pub open_in : World → List ℕ
  pub bound_to : World → ℕ → Option SockAddr
  pub attached_to : World → ℕ → Option Bytes
  pub inet_addr : Bytes → Bytes
  pub socket : World → World × ℤ
  pub open_file : World → Bytes → World × ℤ
  pub bind : World → ℤ → SockAddr → World × ℤ
  pub ioctl : World → ℤ → Ifreq → World × ℤ
  pub close : World → ℤ → World × ℤ
  pub socket_opens : (w : World) → Opened open_in w (socket w)
  pub open_opens : (w : World) (path : Bytes) → Opened open_in w (open_file w path)
  pub bind_keeps : (w : World) (fd : ℤ) (sa : SockAddr) → open_in (bind w fd sa).0 ≡ open_in w
  pub bind_binds :
      (w : World) (fd : ℕ) (sa : SockAddr)
      → is_zero (bind w (pos fd) sa).1 ≡ true
      → bound_to (bind w (pos fd) sa).0 fd ≡ some sa
  pub ioctl_keeps : (w : World) (fd : ℤ) (ifr : Ifreq) → open_in (ioctl w fd ifr).0 ≡ open_in w
  pub ioctl_attaches :
      (w : World) (fd : ℕ) (ifr : Ifreq)
      → IsPlain (c_string ifr.ifr_name)
      → is_negative (ioctl w (pos fd) ifr).1 ≡ false
      → attached_to (ioctl w (pos fd) ifr).0 fd ≡ some (c_string ifr.ifr_name)
  pub close_closes :
      (w : World) (fd : ℕ) (before after : List ℕ)
      → All (λ d. (d == fd) ≡ false) before
      → open_in w ≡ before ++ (fd ∷ after)
      → open_in (close w (pos fd)).0 ≡ before ++ after

-- `strncpy` into a name of IFNAMSIZ bytes that are zero
abbrev pub interface_name : Bytes → Bytes
interface_name dev =
    take 16 (dev ++ (0 ∷ 0 ∷ 0 ∷ 0 ∷ 0 ∷ 0 ∷ 0 ∷ 0 ∷ 0 ∷ 0 ∷ 0 ∷ 0 ∷ 0 ∷ 0 ∷ 0 ∷ 0 ∷ []))

c_string-zeros :
    (n : ℕ) (dev zeros : Bytes)
    → length dev < n
    → All (λ c. (0 < c) × (c ≢ 37)) dev
    → c_string (take n (dev ++ (0 ∷ zeros))) ≡ dev
unfolding c_string
c_string-zeros zero dev zeros lt h = absurd (omega arith)
c_string-zeros (suc n) [] zeros lt h = refl
c_string-zeros (suc n) (c ∷ dev) zeros lt ((above, _), h) =
    rw (positive c above) (ap (λ cs. c ∷ cs) (c_string-zeros n dev zeros (omega arith) h))
  where
    positive : (c : ℕ) → 0 < c → (c == 0) ≡ false
    positive c p = ground arith

sign_cases : (i : ℤ) → (is_negative i ≡ false) ⊎ ((n : ℕ) × (i ≡ negsuc n))
sign_cases (pos n) = inl refl
sign_cases (negsuc n) = inr (n, refl)

module _ {World : Type 0} (os : Os World) where
  -- The local address; INADDR_ANY without a host
  abbrev pub local_address : Option Bytes → ℕ → SockAddr
  local_address (some host) port = record {
    family = af_inet;
    port = port % 2 ^ 16;
    addr = os.inet_addr host;
  }
  local_address none port = record {
    family = af_inet;
    port = port % 2 ^ 16;
    addr = 0 ∷ 0 ∷ 0 ∷ 0 ∷ [];
  }

  unfoldable pub create_udp_socket : World → Option Bytes → ℕ → World × ℤ
  create_udp_socket w localhost port =
      let (w₁, udp_fd) = os.socket w in
      let (w₂, br) = os.bind w₁ udp_fd (local_address localhost port) in
      if is_minus_one udp_fd
      then (w₁, negsuc 0)
      else if is_zero br
      then (w₂, udp_fd)
      else ((os.close w₂ udp_fd).0, negsuc 0)

  unfoldable pub close_udp_socket : World → ℤ → World × Bool
  close_udp_socket w sock =
      let (w', r) = os.close w sock in if is_minus_one sock then (w, true) else (w', is_zero r)

  -- The flags are a short.
  unfoldable pub tun_alloc : World → Bytes → ℕ → World × ℤ
  tun_alloc w dev flags =
      let (w₁, fd) = os.open_file w (codes "/dev/net/tun") in
      let ifr : Ifreq = record { ifr_name = interface_name dev; ifr_flags = flags % 2 ^ 16 } in
      let (w₂, err) = os.ioctl w₁ fd ifr in
      if is_negative fd
      then (w₁, fd)
      else if is_negative err
      then ((os.close w₂ fd).0, err)
      else (w₂, fd)

  abbrev iff_tun : ℕ
  iff_tun = 1

  -- The start of `tunnel_thread_function`, with the state of the system, also if the process ends
  unfoldable pub tunnel_opens : World → World × Run ℤ
  tunnel_opens w =
      let (w', tun_in) = tun_alloc w (codes "lab0") iff_tun in
      if is_negative tun_in then (w', exited) else (w', done tun_in)

  -- On success one more descriptor is open, and bound to the address; on failure, -1 and none.
  abbrev pub Bound : World → SockAddr → World × ℤ → Type 0
  Bound w sa (w', pos fd) = (os.open_in w' ≡ fd ∷ os.open_in w) × (os.bound_to w' fd ≡ some sa)
  Bound w sa (w', negsuc n) = (n ≡ 0) × (os.open_in w' ≡ os.open_in w)

  -- On success one more descriptor is open, and the device of that name is behind it; on failure
  -- none.
  abbrev pub Attached : World → Bytes → World × ℤ → Type 0
  Attached w dev (w', pos fd) =
      (os.open_in w' ≡ fd ∷ os.open_in w) × (os.attached_to w' fd ≡ some dev)
  Attached w dev (w', negsuc n) = os.open_in w' ≡ os.open_in w

  bind_or_close-Bound :
      (w : World) (r : World × ℤ) (sa : SockAddr)
      → Opened os.open_in w r
      → Bound w sa (
          if is_minus_one r.1
          then (r.0, negsuc 0)
          else if is_zero (os.bind r.0 r.1 sa).1
          then ((os.bind r.0 r.1 sa).0, r.1)
          else ((os.close (os.bind r.0 r.1 sa).0 r.1).0, negsuc 0))
  bind_or_close-Bound w (w₁, pos fd) sa h =
      let w₂ = (os.bind w₁ (pos fd) sa).0 in
      let still : os.open_in w₂ ≡ fd ∷ os.open_in w = os.bind_keeps w₁ (pos fd) sa ∙ h in
      elim (Bool-cases (is_zero (os.bind w₁ (pos fd) sa).1)) [
        | inl good ↦ rw good (still, os.bind_binds w₁ fd sa good)
        | inr bad ↦ rw bad (refl, os.close_closes w₂ fd [] (os.open_in w) tt still)
      ]
  bind_or_close-Bound w (w₁, negsuc n) sa (e, h) = rw e (refl, h)

  -- The socket that create_udp_socket returns is open and bound to the address that it was asked
  -- for; when it returns -1, no descriptor stays open that was not open before.
  pub create_udp_socket-Bound :
      (w : World) (localhost : Option Bytes) (port : ℕ)
      → Bound w (local_address localhost port) (create_udp_socket w localhost port)
  unfolding create_udp_socket
  create_udp_socket-Bound w localhost port =
      bind_or_close-Bound w (os.socket w) (local_address localhost port) (os.socket_opens w)

  ioctl_or_close-Attached :
      (w : World) (r : World × ℤ) (ifr : Ifreq)
      → IsPlain (c_string ifr.ifr_name)
      → Opened os.open_in w r
      → Attached w (c_string ifr.ifr_name) (
          if is_negative r.1
          then (r.0, r.1)
          else if is_negative (os.ioctl r.0 r.1 ifr).1
          then ((os.close (os.ioctl r.0 r.1 ifr).0 r.1).0, (os.ioctl r.0 r.1 ifr).1)
          else ((os.ioctl r.0 r.1 ifr).0, r.1))
  ioctl_or_close-Attached w (w₁, pos fd) ifr plain h =
      let w₂ = (os.ioctl w₁ (pos fd) ifr).0 in
      let still : os.open_in w₂ ≡ fd ∷ os.open_in w = os.ioctl_keeps w₁ (pos fd) ifr ∙ h in
      let closed = os.close_closes w₂ fd [] (os.open_in w) tt still in
      elim (sign_cases (os.ioctl w₁ (pos fd) ifr).1) [
        | inl good ↦ rw good (still, os.ioctl_attaches w₁ fd ifr plain good)
        | inr (n, bad) ↦ rw bad closed
      ]
  ioctl_or_close-Attached w (w₁, negsuc n) ifr plain (e, h) = h

  -- For a device name of 1 to 15 bytes without 0 and %: the descriptor that tun_alloc returns is
  -- one more than were open, with the device of that name behind it; when the result is negative,
  -- the descriptors are those that were open before.
  pub tun_alloc-Attached :
      (w : World) (dev : Bytes) (flags : ℕ) → IsPlain dev → Attached w dev (tun_alloc w dev flags)
  unfolding tun_alloc
  tun_alloc-Attached w dev flags plain =
      let ifr : Ifreq = record { ifr_name = interface_name dev; ifr_flags = flags % 2 ^ 16 } in
      let (_, short, chars) = plain in
      let name : c_string ifr.ifr_name ≡ dev = c_string-zeros 16 dev _ short chars in
      subst (λ d. Attached w d (tun_alloc w dev flags)) name
        (ioctl_or_close-Attached w (os.open_file w (codes "/dev/net/tun")) ifr
          (subst IsPlain (sym name) plain) (os.open_opens w (codes "/dev/net/tun")))

  closed_after :
      (w : World) (sa : SockAddr) (r : World × ℤ)
      → Bound w sa r
      → os.open_in (close_udp_socket r.0 r.1).0 ≡ os.open_in w
  unfolding close_udp_socket
  closed_after w sa (w', pos fd) (h, _) = os.close_closes w' fd [] (os.open_in w) tt h
  closed_after w sa (w', negsuc n) (e, h) = rw e h

  -- close_udp_socket undoes create_udp_socket, whether that succeeded or not: the descriptors are
  -- those that were open before.
  pub close-create :
      (w : World) (localhost : Option Bytes) (port : ℕ)
      → let (w', sock) = create_udp_socket w localhost port in
        os.open_in (close_udp_socket w' sock).0 ≡ os.open_in w
  close-create w localhost port =
      closed_after w (local_address localhost port) (create_udp_socket w localhost port)
        (create_udp_socket-Bound w localhost port)
