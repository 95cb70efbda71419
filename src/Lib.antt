-- ===== src/Lib.antt =====
-- A model of parts of GP-SDR's server, a software-defined radio receiver and transmitter written in
-- Go. The sources are in server/internal/app. These parts are modelled, a folder each:
--
-- * Profiles (store.go, models.go). Profiles/Profile.antt has the scan profile and `validateProfile`;
--   Profiles/Store.antt the profile store, in memory and as a directory of files, with
--   `NewProfileStore`, `Save`, `Import`, `Duplicate`, `Delete` and `ReplaceSyncedProfiles`. Whether the
--   write of a call succeeds, and the ID that it makes, are inputs of the call.
-- * Mapper (mapper.go, live_survey.go). Mapper/Config.antt has `validateMapperScanConfig`; Mapper/Job.antt
--   a job and its progress; Mapper/Jobs.antt the manager's map of jobs and its file, with `SaveJob`,
--   `DeleteJob` and the loading in `NewMapperManager`; Mapper/Jobs/Sessions.antt the calls by which a run
--   reports, from `BeginJobSession` to `EndJobSession`; Mapper/Jobs/Steps.antt these calls in any order.
--   Mapper/Batches.antt has `mapperJobTargetBatches`: the outer loop is on fuel, as much as there are
--   targets, of which each round takes one at least. Mapper/Batches/Window.antt says of the targets one
--   by one what the test of a capture's window says of their edges.
-- * Receivers (runtime.go). Receivers/Plan.antt has `buildPlan`; Receivers/Owners.antt which receivers the
--   running profile and the jobs of the Mapper hold: `StartMapperJob`, `StopMapperJob`,
--   `finishMapperJob`, `Stop`, and `startProfile` in the two steps that take the lock. The module
--   Receivers/Owners/Between.antt puts a call between these steps. Receivers/Partition.antt has
--   `partitionScanProfile`, which divides a profile between several receivers.
-- * Storage (storage_policy.go). Storage/Policy.antt has `StoragePolicy`, `validateStoragePolicy` and
--   `loadStoragePolicy`; encoding/json is two parameters of it. Storage/Journal.antt has
--   `compactCaptureIntervalJournal` on the bytes of the journal, with the disk's answers as inputs;
--   Storage/Prune.antt has `pruneCaptureRootToCap` on the files that the walk finds.
-- * Tuning (mapper_tuning.go). The RF settings of one Mapper job: Tuning/State.antt has the state,
--   Tuning/Rtl.antt `adjustRTL`, Tuning/HackRf.antt `adjustHackRF`, Tuning/Job.antt
--   `newMapperAdaptiveTuning`, `apply`, `observe`, `status` and `setNoiseMargin`, and
--   Tuning/Margin.antt `mapperDetectionMargin`. A job asks `apply` for the settings of a capture and
--   gives what was measured to `observe`, which adjusts by the kind of the device.
-- * Events (store.go, event_journal.go). Events/Store.antt has the event store in memory, its two
--   journals, `Append` and the six `Update` methods; Events/Index.antt `indexEventLocked`,
--   Events/Signals.antt `aggregate`, Events/Text.antt `searchTokens` and `mergeUniqueStrings`, and
--   Events/Load.antt `NewEventStore`, `loadUpdates` and `repairTornEventTail`, and Events/Query.antt
--   `Recent` and `Search`. A write has one of five outcomes, of which four are errors; the outcome is
--   an input of the call. The number of bytes in the JSON of an event is a parameter of the loading,
--   whose scanners stop at a line that is too long.
-- * Transmit (transmit.go). Transmit/Request.antt has the checks of `Transmit`, with what they read of
--   the runtime as an input; Transmit/Command.antt the commands of `runTransmit`; Transmit/Job.antt the
--   job's life, in the steps between which the locks are free. Transmit/Job/Order.antt puts these
--   steps in a relation.
--
-- A configuration that the Mapper accepts sets the gains of Tuning, in Mapper/Config/Gains.antt.
--
-- The program's floats are whole numbers of a unit that each file names. Text is a list of code
-- points, with letter case folded for ASCII. Rows of the journals are events or bytes that are no
-- event, since encoding/json is outside of the program; `ExtractCallsigns` and the printing of numbers
-- are parameters. Loops are structural recursions, but for the one named above.
--
-- Not modelled: signal processing (floating point), the processes and devices that the server runs,
-- HTTP, and of the files above the pruning by age, the other queries of the event store,
-- `mapperCaptureLevels`, the modulator, the records of what the Mapper observes, and the mixer and
-- telemetry of the runtime.
pub mod Prelude
pub mod Profiles
pub mod Mapper
pub mod Receivers
pub mod Storage
pub mod Tuning
pub mod Events
pub mod Transmit
