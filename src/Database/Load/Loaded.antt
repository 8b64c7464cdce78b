-- ===== src/Database/Load/Loaded.antt =====
-- The geometry that LoadGeneralInfo and LoadGeoInfo load.
use libsolgem.Base.{Option}
use libsolgem.Double.{Double}
