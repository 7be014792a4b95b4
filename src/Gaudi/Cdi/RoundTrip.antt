-- ===== src/Gaudi/Cdi/RoundTrip.antt =====
-- A blank CDI device of pkg/gaudi/cdihelpers, from `NewBlankDevice` to `DeleteBlankDevices`.
use intel_resource_drivers_f.Base.{◌≡◌, ◌≢◌, true, String, some}
use intel_resource_drivers_f.Gaudi.Cdi.{Spec, Registry, Ending, write_spec, ending, qualified_name}
use intel_resource_drivers_f.Gaudi.Cdi.Blank.{named}

-- What the cache promises for a device name that no file but `file` declares, which is what `Sole`
-- stands for: a change in place of the spec of that file keeps this, and a spec of that file is found
-- by the name once it was written, if it has a device of that name.
pub record Finds {W : Type 0} (cdi : Registry W) (file name : String) (Sole : W → Type 0)
    : Type 0 where
  pub kept : (s : Spec) (w : W) → s.spec_name ≡ file → Sole w → Sole (cdi.put s w)
  pub found :
      (s : Spec) (w : W)
      → Sole w
      → s.spec_name ≡ file
      → named name s.devices ≢ 0
      → (cdi.write_spec s file w).0 ≡ true
      → cdi.get_device (qualified_name name) (cdi.write_spec s file w).1 ≡ some s

module _ {W : Type 0} (cdi : Registry W) where
  -- The write of a changed spec, which ends `DeleteBlankDevices`.
  abbrev pub rewritten : Spec → W → Ending × W
  rewritten spec w =
      let (written, w') = write_spec cdi cdi.put spec spec.spec_name (cdi.put spec w) in
      (ending written, w')
