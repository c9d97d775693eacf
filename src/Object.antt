-- ===== src/Object.antt =====
-- src/objects/rssobject.cpp and rssobject.h: self-describing records and their wire format.
pub mod Value
pub mod Description
pub mod Create
pub mod Encode
pub mod Parse
pub mod Access
pub mod Shape
pub mod Fresh
pub mod Fields
pub mod RoundTrip
pub mod Reuse
pub mod Names
pub mod Taken
pub mod Reverse
pub mod Dump
pub mod Delete
pub mod RowAccess
pub mod Copies
pub mod Typed
pub mod Safety
