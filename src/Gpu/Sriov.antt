-- ===== src/Gpu/Sriov.antt =====
-- The PFs and VFs of GPUs: pkg/gpu/discovery/sriov.go.
pub mod Outcome
use Prim.Native.String.{len}
use intel_resource_drivers_f.Base.{
  ℕ, not, String, List, [], ◌∷◌, Option, none, some, keep, if◌then◌else◌, str_eq, ◌==◌, trim_space,
  parse_uint, join, from, has_prefix,
}
use intel_resource_drivers_f.Helpers.Uids.{device_uid_from_pci_info}
use intel_resource_drivers_f.Gpu.Types.{DeviceInfo}
use intel_resource_drivers_f.Gpu.Sysfs.{Os, Link, device_file}
use intel_resource_drivers_f.Gpu.Probe.{Probe}

-- A link's target, as text.
unfoldable pub link_text : Link → Option String
link_text (Link.target path) = some (join "/" path)
link_text Link.missing = none
link_text Link.failed = none

module _ {W : Type 0} (os : Os W) (probe : Probe W) where
  -- The loop of `deduceVfIdx` over the links of a parent, up to the one that leads to the VF.
  vf_idx_from : String → String → List String → W → Option ℕ
  unfolding link_text
  vf_idx_from parent vf [] w = none
  vf_idx_from parent vf (name ∷ names) w =
      let later = vf_idx_from parent vf names w in
      elim (link_text (os.read_link (device_file os parent (name ∷ [])) w)) [
        | none ↦ later
        | some target ↦
            if not (len target == 15)
            then later
            else if str_eq (from 3 target) vf
            then parse_uint (from 6 name)
            else later
      ]

  unfoldable pub deduce_vf_idx : String → String → W → Option ℕ
  unfolding vf_idx_from
  deduce_vf_idx parent vf w = elim (os.read_dir (device_file os parent []) w) [
    | none ↦ none
    | some names ↦ vf_idx_from parent vf (keep (has_prefix "virtfn") names) w
  ]

  -- The branch of `detectSRIOV` for a device that is no PF.
  unfoldable pub detect_vf : DeviceInfo → String → W → DeviceInfo
  unfolding link_text deduce_vf_idx
  detect_vf info device_id w =
      elim (link_text (os.read_link (device_file os info.pci_address ("physfn" ∷ [])) w)) [
        | none ↦ info
        | some target ↦
            let parent = from 3 target in
            elim (deduce_vf_idx parent info.pci_address w) [
              | none ↦ info
              | some idx ↦ record info {
                vf_index = idx;
                millicores = 1000;
                parent_uid = device_uid_from_pci_info parent device_id;
                device_type = "vf";
              }
            ]
      ]

  unfoldable pub detect_sriov : DeviceInfo → String → W → DeviceInfo
  unfolding detect_vf
  detect_sriov info device_id w =
      elim (probe.read_file (device_file os info.pci_address ("sriov_totalvfs" ∷ [])) w) [
        | none ↦ detect_vf info device_id w
        | some total ↦ elim (parse_uint (trim_space total)) [
          | none ↦ info
          | some max ↦
              elim (probe.read_file
                (device_file os info.pci_address ("sriov_drivers_autoprobe" ∷ [])) w) [
                  | none ↦ info
                  | some autoprobe ↦
                      if str_eq (trim_space autoprobe) "0"
                      then info
                      else record info { max_vfs = max }
                ]
        ]
      ]
