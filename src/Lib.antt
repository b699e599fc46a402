-- ===== src/Lib.antt =====
-- Live pod migration: the reconcilers that move a running pod to another node by checkpoint and
-- restore.
--
-- Parts and how they interact. A PodMigration asks for a pod to be moved. Its reconciler creates a
-- PodCheckpoint, waits for it, has the agent make an image of each container's checkpoint, creates
-- the restored pod on the target node, and deletes the original when that one runs. The reconciler
-- of a PodCheckpoint creates a ContainerCheckpoint for each container and sums up their phases; that
-- of a ContainerCheckpoint calls the agent on the pod's node and records the artifact in a content
-- object. The reconcilers share nothing but the objects of the API server.
--
-- Files:
--   Base, Effect, Reconcile   helpers; Go's error results as values, with the rules for what an action
--     keeps, yields, logs and ends with; ctrl.Result
--   Api/Core, Api/Lpm, Api/Rpc   the Kubernetes objects, api/v1/*_types.go and the messages of
--     api/proto/checkpoint.proto, with the fields that the program uses
--   World   the calls of the API server, of the gRPC transport and of the clock, as parameters over
--     an unknown state; World/Trace adds a log of the calls to any world, World/Calls lists the calls of
--     a migration's reconcile that an invariant has to be kept by, World/Working is a server that works for
--     one object, and the rounds of its reconciler
--   AgentClient   internal/agent/client.go (CheckpointContainer is checkpoint_container, and so on);
--     Dialing and Closing its connections
--   AgentServer   cmd/checkpoint-agent/main.go: Host is what it calls on its node, as parameters,
--     Kubelet is makeTLSClient and doCheckpointWithBackoff, Images is convertCheckpointToOCI, Storage
--     copyToSharedStorage, Artifacts and Published the URI that a checkpoint is published under, Main the
--     agent's main
--   Agent   the agents' servers behind the reconcilers' calls (Served) and the image that comes of a
--     checkpoint (Images)
--   ContainerCheckpoint   internal/controller/containercheckpoint_controller.go; Made and Recorded
--     what its content objects are made of, Progress the stages of one that meets no failure, and its rounds
--   PodCheckpoint   internal/controller/podcheckpoint_controller.go; Verdict is the evaluation of the
--     children in handleCheckpointingPhase, Children and Present what the loop over the containers makes,
--     Progress the stages of one that meets no failure, and its rounds
--   Migration   internal/controller/podmigration_controller.go; Status is updatePhase, Images is
--     handlePreparingImagesPhase with its helpers, Restore is handleRestoringPhase,
--     createRestoredPod and deleteOriginalPod; a handler handleXPhase is handle_x; Store is what the
--     API server documents of a stored migration, and the runs over it; Progress the stages of a
--     migration that meets no failure, and the rounds that take it from one to the next
--   Manager   cmd/main.go: Host is what it calls, as parameters, Scheme the kinds of api/v1, Servers the
--     options of the metrics and webhook servers, Controllers the three SetupWithManager; Trace logs
--     its calls, Plan is what is set up in which order, Start, Works and Tls what follows
--   DeepCopy   api/v1/zz_generated.deepcopy.go: Memory is what Go's pointers lead to, Structs the types of
--     api/v1 with their pointers, Into, New and Object are DeepCopyInto, DeepCopy and DeepCopyObject by
--     type (PodMigration is pod_migration); Values says what a value is worth
--   Tests   a cluster held in memory, its objects, and runs; a node for the agent's server; a store with
--     resource versions (Versions), which works for a migration (Working, Rounds), and agents behind a
--     cluster (Served)
--
-- How it is modelled. A call is a function of the state that answers with a value, an error or a
-- panic, and the next state. The API server is not modelled: every read may find anything, and every
-- write may fail, so that the theorems on the logs of calls hold of any interleaving with other
-- clients. The theorems of Migration/Store take what the server documents of one object as a hypothesis:
-- a status write with a stale resource version is refused, one with the stored version is made or fails,
-- a read answers with some state that the object was in, and the other calls leave it alone. Those of the
-- modules Progress take a server that answers, and no other writer of that one object; what others have
-- to do between two rounds is spelled out for each stage. A write answers with the object as the
-- server returned it, as Go's client decodes the answer into its argument. The loops run over lists
-- and need no fuel. Time is a number. A Go map is an association list, the nil map `none`.
--
-- Only the deep copies are about sharing, and only there values have addresses: a pointer, a slice or a
-- map leads to a cell of a memory, new cells come after the old ones, and a struct or a slice is put in its
-- cell when it is complete. A map's entries are one cell. Elsewhere a copy of an object is the object.
--
-- Not modelled: the log output and the options of the logger, contexts and deadlines,
-- generated protobuf code, the tests, and the deployment files.
pub mod Base
pub mod DeepCopy
pub mod Effect
pub mod Api
pub mod World
pub mod AgentClient
pub mod AgentServer
pub mod Agent
pub mod Manager
pub mod Reconcile
pub mod ContainerCheckpoint
pub mod PodCheckpoint
pub mod Migration
pub mod Tests
