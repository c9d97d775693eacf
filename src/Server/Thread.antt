-- ===== src/Server/Thread.antt =====
-- The thread of the device, `device_thread_function` (src/apps/RSServerCommunication.cpp), as steps.
use mathlib.Core.Path.{subst}
use labyrinthus.Base.{
  ℕ, zero, suc, ◌≡◌, sym, ap, ◌∙◌, Bytes, Bool, List, Run, done, ◌>>=◌, >>=-eq-done, Bool-cases,
  inl, inr,
}
use labyrinthus.Socket.Packet.{Event, receive_packet}
use labyrinthus.Server.State.{Server}
use labyrinthus.Server.Start.{on_device_connect}
use labyrinthus.Server.Receiver.{receiver, handle_packet}
use labyrinthus.Server.Steps.{Reach, next, connect, packet}

-- With fuel for the rounds of `receiver`, and what arrives
unfoldable pub device_thread_function : ℕ → (Bytes → Bool) → Server → List Event → Run Server
device_thread_function fuel written s events =
    on_device_connect s >>= λ s'. receiver fuel written s' events

-- A state that the program comes to, but for the socket, which has failed to receive since
abbrev pub Left : (Bytes → Bool) → Server → Type 0
Left written s' = (s : Server) × Reach written s × (s' ≡ record s { rsock = s'.rsock })

receiver-Left :
    (fuel : ℕ) (written : Bytes → Bool) (s : Server) (events : List Event) (s' : Server)
    → Reach written s
    → receiver fuel written s events ≡ done s'
    → Left written s'
unfolding receiver
receiver-Left zero written s events s' way h = cc
receiver-Left (suc fuel) written s events s' way h =
    let (got, e, q) = >>=-eq-done (receive_packet s.rsock events) _ h in
    elim (Bool-cases got.1) [
      | inr stop ↦
          let same : done (record s { rsock = got.0 }) ≡ done s' = rw stop at q in
          let whole : record s { rsock = got.0 } ≡ s' = cc in
          (s, way, sym whole ∙ ap (λ k. record s { rsock = k }) (ap (λ x. x.rsock) whole))
      | inl go ↦
          let (s₁, e₁, q₁) =
            >>=-eq-done (handle_packet written (record s { rsock = got.0 })) _ (rw go at q) in
          receiver-Left fuel written s₁ got.2 s'
            (next way (
              packet got.0 events got.2
                (subst (λ b. receive_packet s.rsock events ≡ done (got.0, b, got.2)) go e) e₁))
            q₁
    ]

-- What the thread of the device does, when it ends, from a state that the program comes to, are
-- steps to another such state, and a last receive that fails.
pub device_thread_function-Left :
    (fuel : ℕ) (written : Bytes → Bool) (s : Server) (events : List Event) (s' : Server)
    → Reach written s
    → device_thread_function fuel written s events ≡ done s'
    → Left written s'
unfolding device_thread_function
device_thread_function-Left fuel written s events s' way h =
    let (s₁, e, q) = >>=-eq-done (on_device_connect s) _ h in
    receiver-Left fuel written s₁ events s' (next way (connect e)) q
