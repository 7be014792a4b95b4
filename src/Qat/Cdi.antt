-- ===== src/Qat/Cdi.antt =====
-- pkg/qat/cdihelpers/cdihelpers.go: the CDI spec of the VFs. The CDI cache is an interface.
use intel_resource_drivers_f.Base.{
  Bool, true, false, String, List, [], ◌∷◌, map, Option, none, some, keep, str_eq,
}
use intel_resource_drivers_f.Qat.Types.{VfDevice, VfDevices, cdi_kind, uid, device_node}

-- A CDI device with its one device node.
pub record CdiDevice : Type 0 where
  pub name : String
  pub path : String

-- `path` is the path of the spec's file.
pub record Spec : Type 0 where
  pub kind : String
  pub version : String
  pub path : String
  pub devices : List CdiDevice

-- The cache of tags.cncf.io/container-device-interface; the Boolean answers are true on success.
pub record Registry (W : Type 0) : Type 0 where
  pub vendor_specs : W → List Spec
  pub write_spec : Spec → String → W → Bool × W
  pub remove_spec : String → W → Bool × W
  pub minimum_required_version : Spec → Option String
  pub generate_name_for_spec : Spec → Option String

unfoldable pub cdi_device : String × VfDevice → CdiDevice
cdi_device (_, vf) = record { name = uid vf; path = device_node vf }

module _ {W : Type 0} (cdi : Registry W) where
  unfoldable pub get_qat_specs : W → List Spec
  get_qat_specs w = keep (λ s. str_eq s.kind cdi_kind) (cdi.vendor_specs w)

  -- `writeSpec`: an empty spec is removed.
  unfoldable pub write_spec : Spec → String → W → Bool × W
  write_spec spec spec_name w = elim (cdi.minimum_required_version spec) [
    | none ↦ (false, w)
    | some v ↦ elim spec.devices [
      | [] ↦ cdi.remove_spec spec_name w
      | _ ∷ _ ↦ cdi.write_spec (record spec { version = v }) spec_name w
    ]
  ]

  -- `addDevicesToNewSpec`, with `addDevicesToSpecAndWrite`.
  unfoldable pub add_devices_to_new_spec : VfDevices → W → Bool × W
  unfolding write_spec cdi_device
  add_devices_to_new_spec devices w =
      let spec : Spec = record { kind = cdi_kind; version = ""; path = ""; devices = [] } in
      elim (cdi.generate_name_for_spec spec) [
        | none ↦ (false, w)
        | some spec_name ↦ write_spec (record spec { devices = map cdi_device devices }) spec_name w
      ]

  -- The loop that removes the old specs, up to the first failure.
  remove_specs : List Spec → W → Bool × W
  remove_specs [] w = (true, w)
  remove_specs (spec ∷ specs) w =
      let (removed, w') = cdi.remove_spec spec.path w in
      elim removed [ false ↦ (false, w') | true ↦ remove_specs specs w' ]

  unfoldable pub add_detected_devices_to_cdi_registry : VfDevices → W → Bool × W
  unfolding remove_specs get_qat_specs add_devices_to_new_spec
  add_detected_devices_to_cdi_registry devices w =
      let (removed, w') = remove_specs (get_qat_specs w) w in
      elim removed [ false ↦ (false, w') | true ↦ add_devices_to_new_spec devices w' ]
