-- ===== src/Driver.antt =====
-- driver/rbminiflt.c and driver/rbminiflt.h: the mini-filter. `State` is `RBF_GLOBAL`; the other
-- modules are the sections of the source file.
pub mod State
pub mod Queue
pub mod Notify
pub mod Kernel
pub mod Config
pub mod Protect
pub mod StorePath
pub mod Cache
pub mod Stage
pub mod Entry
