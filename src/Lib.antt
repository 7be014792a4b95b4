-- ===== src/Lib.antt =====
-- Intel resource drivers for Kubernetes: the QAT, GPU and Gaudi kubelet plugins. Each prepares the devices
-- that the scheduler allocated to a claim, tells the container runtime of them by CDI specs, keeps the
-- prepared claims in a file over a restart, and takes the devices back when the claim is gone.
--
-- The parts, and the files that model them (paths from the root of the repository):
-- - Base and its children: the shared names. Base.Maps is a Go map with text keys as an association
--   list, whose order is the order in which a `range` loop happens to visit the map; Base.Outcome is a
--   result; Base.Text and Base.Decimal have the functions of Go's strings and strconv that the code calls,
--   Base.Pattern the regular expression for PCI addresses, Base.Reading a tree of files that is only
--   read.
-- - Kubelet: the claims of k8s.io/api and the devices of k8s.io/dynamic-resource-allocation, with the
--   fields that the code reads or fills.
-- - Helpers: pkg/helpers/node_state.go, the claims file of the QAT and Gaudi drivers; Helpers.Uids is the
--   UID of a device in pkg/helpers/device.go, with its inverse, and Helpers.Roots the roots of sysfs and
--   devfs there.
-- - Qat: pkg/qat/device/device.go by its parts. Services is the type of that name, Types the data of a
--   PF and its VFs, Sysfs the reads and writes of a PF (`read`, `write`, `syncConfig`, `up`, `down`,
--   `update`, `enableVFIO`), Scan the discovery and the configuration (`New`, `getVFs`, `EnableVFs`,
--   `SetServices`), Alloc the two maps of a PF (`Allocate`, `freePF`), Reconfig the methods of a VF that
--   may reconfigure its PF; Reconfig.Owners is the specification of a PF for its clients, where each VF
--   has an owner. Plugin is cmd/kubelet-qat-plugin: `Prepare`, `Allocate` and `Unprepare` of
--   node_state.go, the claim methods of driver.go and its start of the PFs, the default configuration of
--   config.go. Driver is the rest of driver.go with `newNodeState` and `GetResources`. Cdi is
--   pkg/qat/cdihelpers/cdihelpers.go.
-- - Gpu: Types and Models are pkg/gpu/device, Discovery is pkg/gpu/discovery with
--   Sriov for its sriov.go and Memory for its memory.go, Mei is pkg/gpu/mei/mei.go, Health the updates of cmd/kubelet-gpu-plugin/xpumd.go, Xpumd its reading of
--   xpumd's messages, Sysfs is pkg/vfio/vfio.go with the look-ups of pkg/gpu/discovery/vfio.go and
--   pkg/gpu/drm/drm.go, Cdi is pkg/gpu/cdihelpers/cdihelpers.go, Claims is
--   cmd/kubelet-gpu-plugin/claimPreparations.go. Binding, Node, Resources and Refresh are node_state.go
--   of that directory: the change of the kernel driver, `Prepare` and `Unprepare`, `newNodeState` with
--   `GetResources`, and `RefreshDeviceOnDriverEvent`. Driver has the calls of the kubelet in driver.go, and
--   Start its start and shutdown with healthcheck.go. Watch is udev.go, Listen the listener of xpumd.go, and
--   Streams resourceHealthPodStatus.go.
-- - Gaudi: Types is pkg/gaudi/device/device.go, Discovery pkg/gaudi/discovery with its fallback, Cdi
--   pkg/gaudi/cdihelpers/cdihelpers.go. Node is cmd/kubelet-gaudi-plugin/node_state.go with the claim
--   methods of driver.go, Health is healthcare.go, Driver the flags and the start in driver.go.
--
-- How they interact: the kubelet calls a driver with claims; this changes the state of the node (Gpu.Node,
-- Qat.Plugin, Gaudi.Node), which calls the devices, the CDI specs and the claims file. A step takes the state and returns
-- it beside the answer, on errors too, so that what was changed before an error stays changed. Each
-- method of a node's state is one step, and other programs act between the steps: the methods hold the
-- state's lock, but for `Unprepare` of the QAT driver, which frees the VFs outside it.
--
-- What is outside is an interface with a type of system states: the file system (`Os`, `Disk`, `Files`,
-- and `Tree` where it is only read), the JSON encoder (`Codec`), the cache of CDI specs (a `Registry` of
-- each driver), the library of Gaudi devices (`Hlml`), the API server (`Cluster`), and the answers of the
-- kernel on the memory of a GPU (`Probe`). A law of one is a hypothesis of the theorem that needs it:
-- `Lossless`, which is up to the order of a map, and `Durable` of Gpu.Claims.Restart and of
-- Helpers.Restart, `Finds` of Gaudi.Cdi.RoundTrip. Encoder is an encoder for the tests, which writes maps
-- by the order of their keys, as encoding/json does. In the GPU's code a pointer to a
-- device is shared by the map of allocatable devices alone, so a change of the device is a change of the
-- map. A VF points to its PF, by an address in the list of PFs.
--
-- Numbers: `Services` is a uint64 of which five bits are used, and the text functions are finite
-- there; `Atoi` and `ParseUint` have the range of 64 bits. The decimal text of a number has fuel for 20
-- digits, which 64 bits need, and Base.Decimal reads such a text back. A loop that runs until the driver
-- ends is a function of what it is told: the monitor of Gaudi devices of its number of ticks, the listener
-- of xpumd of what its stream gives, the streams of the Pods' status of their steps. Every other loop is
-- over a list.
--
-- Not modelled: most flags, logging, sleeps, the gRPC servers and streams, netlink, the ioctls, the sending
-- of ResourceSlices (what is in them and when they are sent is modelled), the shutdown of the Gaudi driver,
-- the end of the Gaudi monitor by its context, and the fake devices of the tests.
pub mod Base
pub mod Kubelet
pub mod Encoder
pub mod Helpers
pub mod Qat
pub mod Gaudi
pub mod Gpu
