-- ===== src/Decoder.antt =====
-- src/TSBSSimDecoder.{h,cxx}: reading an event back.
pub mod Setup
pub mod LoadStrips
pub mod Truth
pub mod Clusters
pub mod BackTrack
pub mod Shower
pub mod Profiles
pub mod Kinematics
pub mod Calorimeter
pub mod LoadEvent
