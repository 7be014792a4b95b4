-- ===== src/Qat/Sysfs/Frame.antt =====
-- What the sysfs actions leave alone: a read changes nothing, a write changes no field of the PF,
-- and `up` and `down` change its state alone.
use intel_resource_drivers_f.Base.{
  ◌≡◌, refl, String, [], ◌∷◌, Option, none, some, length, ltb, ◌⊎◌, Bool-cases, Option-cases, inl,
  inr,
}
use intel_resource_drivers_f.Qat.Types.{State, PfDevice, state_string}
use intel_resource_drivers_f.Qat.Sysfs.{
  FilePath, Os, Host, file_of, read, after_write, write, set_state, up, down, qat_state, WriteError,
}
use intel_resource_drivers_f.Qat.Sysfs.Triple.{Outcome, Triple, bind, Outcome-weaken}

State-cases : (s : State) → (s ≡ State.up) ⊎ (s ≡ State.down)
State-cases State.up = inl refl
State-cases State.down = inr refl

module _ {W : Type 0} (os : Os W) where
  pub read_lem : (P : Host W → Type 0) (file : FilePath) → Triple P P P (read os file)
  unfolding read
  read_lem P [] = record { at = λ h p. p }
  read_lem P (c ∷ cs) = record {
    at = λ h p. elim (Option-cases (os.read_file (file_of os h.pf.device (c ∷ cs)) h.world)) [
      | inl e ↦ rw (e, read) p
      | inr (v, e) ↦ rw (e, read) p
    ];
  }

  -- A predicate on the PF alone.
  module _ (P : PfDevice → Type 0) where
    after_write_lem :
        (e : Option WriteError) (h : Host W)
        → P h.pf
        → Outcome (λ h. P h.pf) (λ h. P h.pf) (after_write os e, h)
    unfolding after_write
    after_write_lem none h p = p
    after_write_lem (some e) h p = p

    pub write_lem :
        (file : FilePath) (value : String)
        → Triple (λ h. P h.pf) (λ h. P h.pf) (λ h. P h.pf) (write os file value)
    unfolding write
    write_lem file value = record { at = λ h p. after_write_lem _ _ p }

    -- … that does not depend on its state.
    module _ (closed : (p : PfDevice) (state : State) → P p → P (record p { state = state })) where
      set_state_lem :
          (state : State)
          → Triple
              (λ h. P h.pf)
              (λ h. P h.pf × (h.pf.state ≡ state))
              (λ h. P h.pf)
              (set_state os state)
      unfolding set_state
      set_state_lem state =
          bind (λ h. P h.pf) (λ h. P h.pf) (λ h. P h.pf × (h.pf.state ≡ state)) (λ h. P h.pf)
            (write os qat_state (state_string state)) _ (write_lem qat_state (state_string state))
            (λ _. record { at = λ h p. (closed h.pf state p, refl) })

      pub up_lem :
          Triple (λ h. P h.pf) (λ h. P h.pf × (h.pf.state ≡ State.up)) (λ h. P h.pf) (up os)
      unfolding up
      up_lem = record {
        at = λ h p. elim (State-cases h.pf.state) [
          | inl e ↦ rw (e, up) (p, e)
          | inr e ↦ rw (e, up) ((set_state_lem State.up).at h p)
        ];
      }

      pub down_lem : Triple (λ h. P h.pf) (λ h. P h.pf) (λ h. P h.pf) (down os)
      unfolding down
      down_lem = record {
        at = λ h p. elim (Bool-cases (ltb 0 (length h.pf.allocated_devices))) [
          | inl t ↦ rw (t, down) p
          | inr t ↦ elim (State-cases h.pf.state) [
            | inl e ↦
                rw (t, e, down)
                  (Outcome-weaken _ (λ h. P h.pf) (λ h. P h.pf) _ (λ h q. q.0)
                    ((set_state_lem State.down).at h p))
            | inr e ↦ rw (t, e, down) p
          ]
        ];
      }
