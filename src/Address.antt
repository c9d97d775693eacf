-- ===== src/Address.antt =====
-- The addresses that stand for chains and clients: src/apps/RSServerCommunication.cpp gives them out,
-- the tunnel loop of src/apps/RSRouter.cpp reads them back.
pub mod Binding
pub mod Ids
