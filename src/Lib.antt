-- ===== src/Lib.antt =====
-- A model of the operator that replicates groups of volumes with VolSync: the controller of
-- VolumeGroupReplication (VGR) objects and the handler of VolSync's objects, as Go functions that
-- talk to the API server.
--
-- How the parts work together. The controller's Reconcile (internal/controller/
-- volumegroupreplication_controller.go) reads a VGR and its class, adds the VGR's finalizer, and runs
-- the reconciler of its state: the primary one makes a ReplicationSource for each claim, the
-- secondary one makes a ReplicationDestination for each, after the final sync that moves the
-- application's volumes through temporary claims, and the delete one cleans up. All of them call
-- internal/volsync/handler.go.
--
-- Which file models which part:
--   Exec: a Go function that changes the state of the world and returns normally, returns an error
--     or panics. Exec/Preserves: invariants; Exec/Ensures: what holds after a normal return;
--     Exec/Ends: what holds however a function ends; Exec/Loops: what a loop has done.
--   Objects: the fields of the API objects that are read or written.
--   Client: every call of the API server and of controllerutil, as an interface. Client/Footprint
--     groups the writes, for theorems that need no law of the server; Client/Laws states what the
--     operator relies on: on a cluster that no one else writes to during the call, reads return what
--     is stored and writes are seen by later reads, while a call may still fail at any time;
--     Client/Settling, that a call which fails is done or not done; Client/Listing, that a list leaves
--     out nothing that matches.
--   Volsync and below: internal/volsync/handler.go. Schedule: ConvertSchedulingIntervalToCronSpec;
--     Claims: addFinalizerToPVC, removeFinalizerFromPVC, ensurePVCLabels, IsPVCTerminating,
--     getPVFromPVC, validateSecretAndAddOwnerRef; Temporary: CreateTemporaryPVCFromTerminating,
--     HasTemporaryPVC; Restore: RestorePVCFromTemporary; Source: ReconcileRS; Destination:
--     ReconcileRD; Cleanup: DeleteRS, DeleteRD and the operations by label; Secrets:
--     generateVolSyncReplicationSecret; Owners: addOwnerReferenceAndUpdate. The modules named
--     Effects, Made, Done, Listed, Unprotected and Deleted hold what these do to a lawful cluster,
--     those named Kept and Safety what they leave there however they end, Schedule/Printed what is made
--     of an interval that is printed for a number, Schedule/Refused the intervals that end in no unit.
--   Controller and below: internal/controller. Session: a reconciler's object, with the VGR in memory;
--     Conditions: setCondition; Configuration: the getConfiguration functions; FinalSync:
--     finalsync_handler.go; Primary: primary_reconciler.go, with Interval for ParseSchedulingInterval
--     and isWithinScheduleWindow and Failover for checkFailoverSafety and updatePVCAnnotations;
--     Secondary: secondary_reconciler.go; Delete: delete_reconciler.go; Reconciler:
--     volumegroupreplication_controller.go.
--   Process: cmd/main.go.
--   Tests: a cluster in memory that meets the laws of Client/Laws.
--
-- Loops run over the lists that the server returned, so they need no fuel; Sscanf and the search for
-- suffixes recur on the text. A time is its nanoseconds, a quantity its text, and the order of a Go
-- map's iteration is not relied on. A nil pointer that is dereferenced is the outcome `panic`.
--
-- An int64 is its pattern of 64 bits, and its wrap is written out; UnixNano is one, which the theorems
-- on the schedule window take before 2262, where Go defines it.
--
-- Not modelled: logging; the registration with the scheme and of the watch with the manager, which are
-- I/O; the types of internal/volsync/types.go and the handler of internal/controller/rollback.go,
-- which have no operations. addOwnerReference, addOwnerReferenceAndUpdate,
-- generateVolSyncReplicationSecret, checkFailoverSafety and updatePVCAnnotations are modelled though
-- nothing calls them.
pub mod Prelude
pub mod Exec
pub mod Objects
pub mod Client
pub mod Volsync
pub mod Controller
pub mod Process
pub mod Tests
