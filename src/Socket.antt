-- ===== src/Socket.antt =====
-- src/sockets/rs_socket.h and rs_socket.cpp: packets over UDP.
pub mod Packet
pub mod Delivery
pub mod Reply
pub mod Total
pub mod Received
pub mod Descriptor
