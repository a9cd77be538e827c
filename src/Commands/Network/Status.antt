-- ===== src/Commands/Network/Status.antt =====
-- A status of src/commands/network.h and packet_domain.h comes with the code of success, and only then.
use a76xx.Prelude.{Option, none, some, ◌≡◌, ◌⊎◌, refl, inl, inr}
use a76xx.Prelude.Int.{ℤ}
use a76xx.Serial.{Response, ModemSerial, succeeded, timed_out, generic_error}
use a76xx.Commands.Network.{status_switch, get_network_registration_status}
use a76xx.Commands.PacketDomain.{
  get_xxx_network_registration_status, get_gprs_network_registration_status,
  get_lte_network_registration_status,
}

-- The code of success comes with a status, those of a timeout and of an error without one.
unfoldable pub Reported : ℤ × Option ℤ → Type 0
Reported (code, status) =
    ((code ≡ succeeded) × ((z : ℤ) × (status ≡ some z)))
    ⊎ (((code ≡ timed_out) ⊎ (code ≡ generic_error)) × (status ≡ none))

module _ {S F : Type 0} (serial : ModemSerial S F) where
  status_switch-Reported : (rsp : Response) (s : S) → Reported (status_switch serial rsp s).0
  unfolding Reported status_switch
  status_switch-Reported Response.match_1st s = inl (refl, (_, refl))
  status_switch-Reported Response.timeout s = inr (inl refl, refl)
  status_switch-Reported Response.ok s = inr (inr refl, refl)
  status_switch-Reported Response.match_2nd s = inr (inr refl, refl)
  status_switch-Reported Response.match_3rd s = inr (inr refl, refl)
  status_switch-Reported Response.error s = inr (inr refl, refl)

  -- The three commands that ask for the registration.
  pub registration-Reported :
      (s : S)
      → Reported (get_network_registration_status serial s).0
        × Reported (get_gprs_network_registration_status serial s).0
        × Reported (get_lte_network_registration_status serial s).0
  unfolding get_network_registration_status get_gprs_network_registration_status
      get_lte_network_registration_status get_xxx_network_registration_status
  registration-Reported s =
      (status_switch-Reported _ _, status_switch-Reported _ _, status_switch-Reported _ _)
