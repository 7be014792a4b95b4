-- ===== src/Kubelet.antt =====
-- The data that the kubelet and the Kubernetes API hand to the drivers, as far as the drivers read
-- or fill it: `ResourceClaim` of k8s.io/api, `Device` of k8s.io/dynamic-resource-allocation.
use intel_resource_drivers_f.Base.{Bool, String, List, Option}

-- `DeviceRequestAllocationResult`: one device that the scheduler allocated to a claim.
pub record AllocationResult : Type 0 where
  pub request : String
  pub driver : String
  pub pool : String
  pub device : String
  pub admin_access : Option Bool

-- `DeviceSubRequest`
pub record SubRequest : Type 0 where
  pub name : String
  pub device_class_name : String

-- `DeviceRequest`: `exactly` is the class name of an exact request.
pub record DeviceRequest : Type 0 where
  pub name : String
  pub exactly : Option String
  pub first_available : List SubRequest

pub record ResourceClaim : Type 0 where
  pub uid : String
  pub requests : List DeviceRequest
  pub allocation : Option (List AllocationResult)

-- `kubeletplugin.Device`; `bus_id` is the one metadata attribute that a driver sets.
pub record Device : Type 0 where
  pub requests : List String
  pub pool_name : String
  pub device_name : String
  pub cdi_device_ids : List String
  pub bus_id : Option String
