-- ===== src/Server.antt =====
-- The device's server (src/apps/RSServerCommunication.cpp) and its router (src/apps/RSRouter.cpp).
pub mod State
pub mod Edit
pub mod Onion
pub mod Bindings
pub mod Routing
pub mod Peeling
pub mod Journey
pub mod Arrival
pub mod Chains
pub mod Requests
pub mod Receiver
pub mod Clients
pub mod Tunnel
pub mod Entry
pub mod Frame
pub mod Transition
pub mod Start
pub mod Release
pub mod Opening
pub mod Steps
pub mod Moves
pub mod Uses
pub mod Standing
pub mod Devices
pub mod Sockets
pub mod Ready
pub mod Response
pub mod Handlers
pub mod Control
pub mod Connect
pub mod Numbered
pub mod Delivering
pub mod Passing
pub mod Round
pub mod Ip4
pub mod Thread
pub mod Indexed
pub mod Invariant
pub mod Directory
pub mod Naming
pub mod Lifecycle
pub mod Lookup
pub mod Resolution
