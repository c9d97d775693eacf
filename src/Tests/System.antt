-- ===== src/Tests/System.antt =====
-- An operating system with room for four descriptors, and the program on it.
use labyrinthus.Base.{
  ◌≢◌, ◌<◌, Bytes, ℕ, ◌+◌, ◌≡◌, refl, ap, ◌∙◌, false, List, [], ◌∷◌, ◌++◌, Option, some, none,
  length, All, ◌==◌, leb, if◌then◌else◌, codes, Bool-cases, inl, inr, arith,
}
use labyrinthus.Base.Ints.{ℤ, pos, negsuc}
use labyrinthus.Socket.Packet.{SockAddr}
use labyrinthus.Socket.Descriptor.{
  c_string, Os, Ifreq, Opened, Attached, tun_alloc, tun_alloc-Attached,
}
use labyrinthus.Server.Lookup.{eq_self}
use labyrinthus.Server.Opening.{Starts, main_opens, main_opens-Starts}
use labyrinthus.Tests.States.{route_server, memory}

record Machine : Type 0 where
  fds : List ℕ
  bound : ℕ → Option SockAddr
  attached : ℕ → Option Bytes

abbrev opens : Machine → Machine × ℤ
opens w =
    if leb 4 (length w.fds)
    then (w, negsuc 0)
    else (record w { fds = (3 + length w.fds) ∷ w.fds }, pos (3 + length w.fds))

abbrev without : List ℕ → ℕ → List ℕ
without [] fd = []
without (d ∷ ds) fd = let later = d ∷ without ds fd in if d == fd then ds else later

opens-Opened : (w : Machine) → Opened (λ v. v.fds) w (opens w)
opens-Opened w = elim (Bool-cases (leb 4 (length w.fds))) [
  | inl full ↦ rw full (refl, refl)
  | inr room ↦ rw room refl
]

without-found :
    (fd : ℕ) (before after : List ℕ)
    → All (λ d. (d == fd) ≡ false) before
    → without (before ++ (fd ∷ after)) fd ≡ before ++ after
without-found fd [] after h = rw (eq_self fd)
without-found fd (d ∷ before) after (hd, h) =
    rw (hd) (ap (λ ds. d ∷ ds) (without-found fd before after h))

abbrev bind_to : Machine → ℤ → SockAddr → Machine × ℤ
bind_to w (pos fd) sa = (record w { bound = λ d. if d == fd then some sa else w.bound d }, pos 0)
bind_to w (negsuc n) sa = (w, negsuc 0)

abbrev attach_to : Machine → ℤ → Ifreq → Machine × ℤ
attach_to w (pos fd) ifr = (
  record w { attached = λ d. if d == fd then some (c_string ifr.ifr_name) else w.attached d },
  pos 0,
)
attach_to w (negsuc n) ifr = (w, negsuc 0)

abbrev close_one : Machine → ℤ → Machine × ℤ
close_one w (pos fd) = (record w { fds = without w.fds fd }, pos 0)
close_one w (negsuc n) = (w, negsuc 0)

bind_to-fds : (w : Machine) (fd : ℤ) (sa : SockAddr) → (bind_to w fd sa).0.fds ≡ w.fds
bind_to-fds w (pos fd) sa = refl
bind_to-fds w (negsuc n) sa = refl

attach_to-fds : (w : Machine) (fd : ℤ) (ifr : Ifreq) → (attach_to w fd ifr).0.fds ≡ w.fds
attach_to-fds w (pos fd) ifr = refl
attach_to-fds w (negsuc n) ifr = refl

abbrev machine_os : Os Machine
machine_os = record {
  open_in = λ w. w.fds;
  bound_to = λ w. w.bound;
  attached_to = λ w. w.attached;
  inet_addr = λ text. 127 ∷ 0 ∷ 0 ∷ 1 ∷ [];
  socket = opens;
  open_file = λ w path. opens w;
  bind = bind_to;
  ioctl = attach_to;
  close = close_one;
  socket_opens = opens-Opened;
  open_opens = λ w path. opens-Opened w;
  bind_keeps = bind_to-fds;
  bind_binds = λ w fd sa h. rw (eq_self fd);
  ioctl_keeps = attach_to-fds;
  ioctl_attaches = λ w fd ifr plain h. rw (eq_self fd);
  close_closes =
      λ w fd before after h e. ap (λ ds. without ds fd) e ∙ without-found fd before after h;
}

abbrev booted : Machine
booted = record { fds = 1 ∷ 0 ∷ []; bound = λ d. none; attached = λ d. none }

main_opens-Starts_example :
    Starts machine_os booted (main_opens machine_os booted route_server 0 memory)
main_opens-Starts_example = main_opens-Starts machine_os booted route_server 0 memory (omega arith)

tun_alloc-Attached_example :
    Attached machine_os booted (codes "lab0") (tun_alloc machine_os booted (codes "lab0") 1)
tun_alloc-Attached_example =
    tun_alloc-Attached machine_os booted (codes "lab0") 1 (omega arith, omega arith, plain)
  where
    plain : All (λ c. (0 < c) × (c ≢ 37)) (codes "lab0")
    plain = (
      (omega arith, omega arith),
      ((omega arith, omega arith), ((omega arith, omega arith), ((omega arith, omega arith), tt))),
    )
