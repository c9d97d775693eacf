-- ===== src/Tests.antt =====
-- Runs of the model on small inputs, and the theorems at concrete inputs.
mod Wire
mod Numbers
mod Messages
mod Routes
mod Clients
mod Tunnel
mod States
mod Directory
mod System
