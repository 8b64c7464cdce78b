-- ===== src/Examples.antt =====
-- Runs on small concrete inputs, and the theorems at such inputs.
pub mod Data
pub mod Slots
pub mod Planes
pub mod Files
pub mod Geometry
pub mod Events
pub mod Tables
pub mod Digitized
pub mod Inputs
pub mod Clusters
pub mod Decoding
pub mod Loading
pub mod Setup
