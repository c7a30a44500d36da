-- ===== src/Tests.antt =====
-- The library applied to small concrete inputs.
pub mod Text
pub mod Toy
pub mod Samples
pub mod Protocol
pub mod Events
pub mod Filters
pub mod Relay
pub mod Orders
pub mod Store
pub mod System
pub mod Again
pub mod Reading
pub mod Schema
pub mod Service
