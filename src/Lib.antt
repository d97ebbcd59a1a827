-- ===== src/Lib.antt =====
-- recyclebin_svc: a recycle bin for Windows file shares. A file-system filter driver catches deletes
-- on protected paths and renames the file into a staging directory of its volume; a service of the
-- machine stores a row for each, and restores files on request.
--
-- The parts and their modules:
--   * Driver, driver/rbminiflt.c and rbminiflt.h. `Driver.State` has the records of the header: `Note`
--     is RBF_NOTIFICATION with its payload, `Global` is G with the directory cache. `Driver.Config` is
--     RbfLoadConfig, `Driver.Protect` RbfIsProtected and RbfIsExcluded, `Driver.StorePath`
--     RbfGetRequestorSid and RbfBuildStorePath, `Driver.Cache` RbfEnsureStoreDir and the fingerprint
--     cache, `Driver.Notify` RbfAllocNotify, RbfNotifySet* and the accessors, `Driver.Queue` the
--     reservation, RbfQueueNotify, the send thread and the communication port, `Driver.Stage`
--     RbfStageDelete, RbfFailDelete, RbfPreSetInfo, RbfPreCreate and RbfPostCreate, `Driver.Entry`
--     DriverEntry and RbfUnload.
--   * Service, service_c/. `Service.Vol` is rbvol.c, `Service.Sid` its SID helpers, `Service.Db`
--     the statements of rbdb.c on `items`, `Service.Schema` its check and migrations of the
--     schema, `Service.Port` PortHandleMessage of rbport.c, `Service.PortLoop` its thread and
--     `Service.StatsQuery` the context of a statistics query, `Service.Dest` DestIsAllowed and
--     EnsureDirectoryChain of rbrestore.c, `Service.Restore` RestoreItemById and
--     RestoreTreeByPrefix, `Service.Ops` RestoreDrainOps with the statements on the table `ops`,
--     `Service.IFile` WriteIFile of rbstore.c, `Service.Land` StoreLandItem and the rebuild of
--     the $I files, `Service.Policy` PolicyPurgeExpired of rbpolicy.c with StoreDeleteEntry of
--     rbstore.c, `Service.Watermark` PolicyDiskWatermark, `Service.Quota` PolicyEnforceQuota with
--     DbQuotaTotals. Of rbconcile.c, `Service.Sweep` is ReconcileStaging, `Service.Names` the
--     sorted names of a directory, `Service.Reconcile` ReconcileLanded. `Service.Session` is
--     rbsession.c, `Service.Config` rbconfig.c. Of rbservice.c, `Service.LandLoop` is the loop
--     that lands, and `Service.Maintain` MaintenancePass, which runs the parts above one after
--     the other.
--   * Base has lists and tests over the native numbers, wrap-around, UTF-16 strings, and digits.
--   * Tests applies each theorem at a concrete input, and runs the model.
--
-- How they interact: a callback reserves a queue slot, renames, and queues a `Note`; the send thread
-- sends it; the service turns it into a row; a maintenance pass lands the file in the recycle bin of
-- its volume, applies the policies, and sweeps; a restore moves the file back and updates the row. The
-- driver's code under G.QueueLock is one step of `Driver.Queue.Invariant.Step` per critical section,
-- and any interleaving of steps is a `Reach`; `flush` is the section with which an unload empties the
-- queue. Inside one callback, what other threads do to `Global` is the function `between` of
-- `QueueEnv`, at the one place where the callback lets go of the lock between reading the port and
-- inserting.
--
-- Strings are lists of UTF-16 code units without the NUL, and a UNICODE_STRING's Length is twice
-- that. ULONG and ULONG64 counters wrap. Numbers are printed with fuel 20, which 64 bits never
-- exhaust. The walk over a multi-string takes its length as fuel, since each round reads a character.
-- The reaper has as fuel the number of rows and one: a round that is not the last deletes a row. The
-- binary search over names has as fuel their number and one, the split of a registry value its length.
-- The landing loop has any fuel, and says when it ran out of it.
--
-- What is not under the repository is a parameter: `Kernel` (uppercasing, name expressions),
-- `Registry`, `SidEnv`, `DirEnv` and `StageEnv` (answers of the filter manager, the file system
-- and the pool), `DriveEnv`, `FileSystem` with its contract `IsFileSystem`, which a list of paths
-- satisfies, `IFiles` (CreateFileW and WriteFile), `LandEnv` (the time and the SIDs of sessions),
-- `RegKey`, `SessionEnum`, `EntryEnv`, `Round` and `QueryEnv` (answers of the filter manager and
-- its library), `Calls` and `PassEnv`, which also has the staging tree as it is found. SQL
-- statements are read as SQL is defined; whether SQLite carries one out is an argument.
--
-- Text columns of the database are read as UTF-16 again: `Service.Text` is what WToU8 and U8ToW make of
-- a text, and SQLite orders by code points. The invalid parameter handler of the C runtime, which
-- swprintf_s calls for a text that does not fit, is taken to return. A read of the port thread that
-- timed out stays pending on a buffer in use: `PortState` counts such reads, what they write there is
-- part of what the thread reads.
--
-- Not modelled: security descriptors, owners and attributes; logging; allocation failures in the
-- service, but for a statistics query; the texts that an op is finished with; the row of the
-- driver's statistics in the database; the registration tables of the driver; opening the
-- database file, checking and copying it, which are calls of SQLite in sequence; of rbservice.c
-- the loops that time the passes, the control handler and the installation; the Go service, the
-- web page and the scripts.
pub mod Base
pub mod Driver
pub mod Service
pub mod Tests
