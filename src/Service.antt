-- ===== src/Service.antt =====
-- service_c/: the user-mode service.
pub mod Vol
pub mod Dest
pub mod Db
pub mod Port
pub mod PortLoop
pub mod StatsQuery
pub mod Text
pub mod FileSystem
pub mod Restore
pub mod Ops
pub mod Schema
pub mod Policy
pub mod Watermark
pub mod Sid
pub mod IFile
pub mod Land
pub mod Names
pub mod Reconcile
pub mod Sweep
pub mod Quota
pub mod Session
pub mod Config
pub mod LandLoop
pub mod Maintain
