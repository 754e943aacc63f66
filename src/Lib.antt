-- ===== src/Lib.antt =====
-- A model of the GPU scheduler for Kubernetes: the agents on the nodes report their GPUs, the
-- scheduler keeps them in a registry together with what it has reserved for pods, picks GPUs for
-- pods by a strategy, collects pods into gangs, preempts pods of lower priority, and rebalances the
-- inference workers, to which a proxy routes requests.
--
-- Types, Agent, ControlPlane: the records of pkg/types/types.go, internal/agent/types.go and
-- pkg/controlplane/types.go.
-- Registry: internal/gpu/registry.go. The record Registry is the struct, and each method is a
-- function on it under its own name (MarkGPUAllocatedForPod is mark_gpu_allocated_for_pod).
-- Registry.Find holds the searches; Accounting, Release and History the books it keeps.
-- Manager: internal/gpu/manager.go, the nodes and allocations of the mock mode; Manager.Refresh is
-- RefreshAll over any discoverer.
-- Config: internal/config/config.go, the records and the checks; the loader only calls viper.
-- Allocator: internal/allocator. Fifo (fifo.go) and BinPack (binpack.go) choose among the nodes
-- that the registry's get_nodes shows; Routing (routing.go, allocator.go) chooses among the
-- candidates of Registry.Find. Strategy (strategy.go) is the interface of Fifo and BinPack, with
-- what its clients rely on, and GangMultiPod (gang_multi_pod.go) is one of those. Managed is the
-- allocator's plain Allocate and Release, over the packer and the manager.
-- Scheduler: internal/scheduler. Queue (queue.go), Gang (gang.go), Pod (helpers.go), Preemption
-- (preemption.go) and Rebalancer (rebalancer.go). Disagg and Watcher are watcher.go: Watcher has
-- the scheduling of one pod and of one gang, Watcher.Loop the rounds, the informers' handlers and
-- the restart; it calls the registry, the strategy, Routing, Gang and Preemption.
-- Rebalancer.Start is the rebalancer that a configuration starts, and Injector is injector.go.
-- Proxy: internal/proxy/router.go.
-- Dashboard: internal/dashboard. LogBuffer (logbuffer.go) and EventBus (eventbus.go).
-- Common: shared helpers. Examples: the properties at concrete inputs.
--
-- A Go int is an unbounded integer, and so is a time, in nanoseconds with 0 for the zero time;
-- time.Now() is an argument. A map is an association list, whose order stands for the order of a
-- range over the map, so what is shown for every list is shown for every order. sort.Slice is any
-- function that permutes and orders by a strict weak order. A pointer that can be nil is an Option,
-- an index out of range is a `none`, and an error is a constructor of the component's error type.
-- Floating-point metrics are values of any type with the comparison that the code uses. strconv,
-- strings, Kubernetes quantities and the calls to the cluster are parameters. Every loop is
-- recursion on the list it runs over, so there is no fuel.
--
-- The cluster is a state of any type with the calls that the watcher and the preemption make; each
-- call may fail, and a run of the watcher lets anything else happen to the cluster between its
-- steps. A watcher's panic is a `none`, but for the cut of a short device id in a log line, which the
-- registry records in its field `panicked`.
--
-- Not modelled: metrics, log lines and published events; NVML, HTTP and Kubernetes calls; the
-- webhook and the extender, the proxy's server and the handlers of the dashboard.
pub mod Common
pub mod Types
pub mod Agent
pub mod ControlPlane
pub mod Manager
pub mod Registry
pub mod Allocator
pub mod Scheduler
pub mod Proxy
pub mod Config
pub mod Dashboard
pub mod Examples
