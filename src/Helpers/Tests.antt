-- ===== src/Helpers/Tests.antt =====
-- The claims file of the helpers on a disk that keeps a text for each path.
use intel_resource_drivers_f.Base.{
  ℕ, ◌≡◌, ◌≢◌, refl, sym, ap, ◌∙◌, true, not, String, [], ◌∷◌, none, some, Dict, lookup, insert,
  delete, has, arith, lookup-insert_self,
}
use intel_resource_drivers_f.Helpers.{ClaimPreparations, Codec, Files, unprepare_claim}
use intel_resource_drivers_f.Helpers.Uids.{
  prefixed, device_uid_from_pci_info, pci_info_from_device_uid,
}
use intel_resource_drivers_f.Helpers.Uids.RoundTrip.{pci_info-device_uid}
use intel_resource_drivers_f.Helpers.Restart.{
  Lossless, Durable, ReadsAs, get_or_create-unprepare_claim,
}
use intel_resource_drivers_f.Kubelet.{Device}
use intel_resource_drivers_f.Encoder.{sorted, sorted-SameEntries, map_text, map_of, map_reads_back}
use intel_resource_drivers_f.Encoder.Claims.{devices_text, devices_of, devices_read_back}

abbrev codec : Codec
codec = record {
  marshal = λ claims. some (map_text devices_text devices_of devices_read_back claims);
  unmarshal = λ text. some (map_of devices_text devices_of devices_read_back text);
}

codec-Lossless : Lossless codec
codec-Lossless claims text e =
    let same : map_text devices_text devices_of devices_read_back claims ≡ text =
      ground (arith, e) in
    (
      sorted claims,
      ap some (
          ap (map_of devices_text devices_of devices_read_back) (sym same)
          ∙ map_reads_back devices_text devices_of devices_read_back claims),
      sorted-SameEntries claims,
    )

abbrev files : Files (Dict String)
files = record {
  is_missing = λ path w. not (has path w);
  create_file = λ path w. (true, insert path "" w);
  write_string = λ path text w. (true, insert path text w);
  read_file = λ path w. lookup path w;
  write_file = λ path text w. (true, insert path text w);
}

files-Durable : Durable files
files-Durable = record {
  written = λ path text w h.
      (ground (arith, lookup-insert_self path text w), lookup-insert_self path text w);
  created = λ path text w h k. (
    ground (arith, lookup-insert_self path text (insert path "" w)),
    lookup-insert_self path text (insert path "" w),
  );
}

abbrev vf : String → Device
vf name = record {
  requests = "crypto" ∷ "any" ∷ [];
  pool_name = "node";
  device_name = name;
  cdi_device_ids = "intel.com/qat=qatvf-vfio" ∷ [];
  bus_id = none;
}

-- They are written in another order.
abbrev three : ClaimPreparations
three = ("c", vf "c0" ∷ vf "c1" ∷ []) ∷ ("a", []) ∷ ("b", vf "b0" ∷ []) ∷ []

reordered : sorted {V = ℕ} (("c", 1) ∷ ("b", 2) ∷ []) ≡ ("b", 2) ∷ ("c", 1) ∷ []
unfolding sorted
reordered = refl

a_known : lookup "a" three ≡ some []
unfolding lookup
a_known = refl

a_unprepared : (unprepare_claim codec files "file" "a" three []).0 ≡ none
unfolding unprepare_claim lookup delete
a_unprepared = refl

get_or_create-unprepare_claim_example :
    ReadsAs codec files "file"
      (unprepare_claim codec files "file" "a" three []).1
      (unprepare_claim codec files "file" "a" three []).2
    × (lookup "a" (unprepare_claim codec files "file" "a" three []).1 ≡ none)
    × ((other : String)
        → "a" ≢ other
        → lookup other (unprepare_claim codec files "file" "a" three []).1 ≡ lookup other three)
get_or_create-unprepare_claim_example =
    get_or_create-unprepare_claim codec files "file" codec-Lossless files-Durable "a" three [] []
      a_known a_unprepared

-- UIDs

pci_info-device_uid_example :
    pci_info_from_device_uid (device_uid_from_pci_info "0000:0f:01.0" "1020")
    ≡ ("0000:0f:01.0", prefixed "1020")
pci_info-device_uid_example =
    pci_info-device_uid "0000" "0f" "01" "0" (refl, refl, refl) (refl, refl, refl)
      (refl, refl, refl) (refl, refl, refl) "1020" refl
