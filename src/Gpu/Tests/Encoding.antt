-- ===== src/Gpu/Tests/Encoding.antt =====
-- An encoder of checkpoints that writes the claims by the order of their UIDs.
use intel_resource_drivers_f.Base.{
  ◌≡◌, refl, sym, ap, ◌∙◌, Bool, true, false, String, List, [], ◌∷◌, map, none, some, arith,
}
use intel_resource_drivers_f.Kubelet.{Device}
use intel_resource_drivers_f.Gpu.Claims.{PreparedDevice, Checkpoint, Codec}
use intel_resource_drivers_f.Gpu.Claims.Restart.{Lossless}
use intel_resource_drivers_f.Encoder.{
  pack, unpack, unpack-pack, sorted, sorted-SameEntries, map_text, map_of, map_reads_back,
}
use intel_resource_drivers_f.Encoder.Claims.{
  flagged_devices_text, flagged_devices_of, flagged_devices_read_back,
}

-- The devices of a claim with their flags.
prepared_text : List PreparedDevice → String
prepared_text ds = flagged_devices_text (map (λ d. (d.admin_access, d.kubeletplugin_device)) ds)

prepared_of : String → List PreparedDevice
prepared_of text =
    map (λ (admin, d). record { admin_access = admin; kubeletplugin_device = d })
      (flagged_devices_of text)

with_flags :
    (ds : List PreparedDevice)
    → map
        (λ (p : Bool × Device). record { admin_access = p.0; kubeletplugin_device = p.1 })
        (map (λ (d : PreparedDevice). (d.admin_access, d.kubeletplugin_device)) ds)
      ≡ ds
with_flags [] = refl
with_flags (d ∷ ds) = ap (λ rest. d ∷ rest) (with_flags ds)

prepared_reads_back : (ds : List PreparedDevice) → prepared_of (prepared_text ds) ≡ ds
unfolding prepared_of prepared_text
prepared_reads_back ds =
    ap (map (λ (p : Bool × Device). record { admin_access = p.0; kubeletplugin_device = p.1 })) (
      flagged_devices_read_back
        (map (λ (d : PreparedDevice). (d.admin_access, d.kubeletplugin_device)) ds))
    ∙ with_flags ds

pub checkpoint_of : List String → Bool × Checkpoint
checkpoint_of (kind ∷ version ∷ claims ∷ _) = (
  true,
  record {
    kind = kind;
    api_version = version;
    prepared_claims = map_of prepared_text prepared_of prepared_reads_back claims;
  },
)
checkpoint_of _ = (false, record { kind = ""; api_version = ""; prepared_claims = [] })

pub checkpoint_text : Checkpoint → String
checkpoint_text cp = pack (
    cp.kind
    ∷ cp.api_version
    ∷ map_text prepared_text prepared_of prepared_reads_back cp.prepared_claims
    ∷ [])

abbrev pub codec : Codec
codec = record {
  marshal = λ cp. some (checkpoint_text cp);
  unmarshal = λ text. checkpoint_of (unpack text);
  unmarshal_unversioned = λ text. none;
}

checkpoint_reads_back :
    (cp : Checkpoint)
    → checkpoint_of (unpack (checkpoint_text cp))
      ≡ (true, record cp { prepared_claims = sorted cp.prepared_claims })
unfolding checkpoint_of checkpoint_text
checkpoint_reads_back cp =
    rw
      (unpack-pack, map_reads_back prepared_text prepared_of prepared_reads_back cp.prepared_claims)
      refl

pub codec-Lossless : Lossless codec
codec-Lossless cp text e =
    let same : checkpoint_text cp ≡ text = ground (arith, e) in
    (
      sorted cp.prepared_claims,
      ap (λ t. checkpoint_of (unpack t)) (sym same) ∙ checkpoint_reads_back cp,
      sorted-SameEntries cp.prepared_claims,
    )
