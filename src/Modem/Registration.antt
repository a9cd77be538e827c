-- ===== src/Modem/Registration.antt =====
-- The status that src/modem.cpp reports for a network.
use a76xx.Prelude.{
  ℕ, zero, suc, ◌<◌, ◌≤◌, ◌==◌, if◌then◌else◌, false, Option, none, some, ◌≡◌, refl, inl, inr,
  arith,
}
use a76xx.Prelude.Int.{ℤ, is_zero}
use a76xx.Serial.{ModemSerial, timed_out}
use a76xx.Clients.{Session, store_code}
use a76xx.Commands.Network.{get_network_registration_status}
use a76xx.Commands.PacketDomain.{
  get_gprs_network_registration_status, get_lte_network_registration_status,
}
use a76xx.Commands.Network.Status.{Reported, registration-Reported}
use a76xx.Modem.{get_registration_status, registration_switch, status_or}

module _ {S F : Type 0} (serial : ModemSerial S F) (delay : ℕ → S → S) where
  -- What is returned for the answer of a command that reported a status.
  returned_lem :
      (unset : ℤ) (code : ℤ) (status : Option ℤ)
      → Reported (code, status)
      → (if is_zero code then status_or serial delay unset status else timed_out)
        ≡ elim status [ none ↦ timed_out | some z ↦ z ]
  unfolding Reported status_or
  returned_lem unset code status (inl (ok, (z, e))) = rw (ok, e) refl
  returned_lem unset code status (inr (inl c, e)) = rw (c, e) refl
  returned_lem unset code status (inr (inr c, e)) = rw (c, e) refl

  -- The status that the command of a network reported.
  unfoldable pub reported : ℕ → S → Option ℤ
  reported zero s = (get_network_registration_status serial s).0.1
  reported (suc zero) s = (get_gprs_network_registration_status serial s).0.1
  reported _ s = (get_lte_network_registration_status serial s).0.1

  -- For the three networks, getRegistrationStatus returns the status that the network's command
  -- reported, or -1 when it reported none; an uninitialised status is never returned.
  pub get_registration_status_lem :
      (unset : ℤ) (net : ℕ) (c : Session S)
      → net < 3
      → (get_registration_status serial delay unset net c).0
        ≡ elim (reported net c.port) [ none ↦ timed_out | some z ↦ z ]
  unfolding get_registration_status registration_switch store_code reported
  get_registration_status_lem unset zero c h =
      returned_lem unset _ _ (registration-Reported serial c.port).0
  get_registration_status_lem unset (suc zero) c h =
      returned_lem unset _ _ (registration-Reported serial c.port).1
  get_registration_status_lem unset (suc (suc zero)) c h =
      returned_lem unset _ _ (registration-Reported serial c.port).2
  get_registration_status_lem unset (suc (suc (suc net))) c h = absurd (omega arith)

  -- For any other number no command is sent: after a success, the uninitialised status is returned.
  pub get_registration_status_unset :
      (unset : ℤ) (net : ℕ) (c : Session S)
      → 3 ≤ net
      → get_registration_status serial delay unset net c
        ≡ ((if is_zero c.last_error then unset else timed_out), c)
  unfolding get_registration_status registration_switch status_or
  get_registration_status_unset unset net c h =
      let a : (net == 0) ≡ false = ground arith in
      let b : (net == 1) ≡ false = ground arith in
      let d : (net == 2) ≡ false = ground arith in rw (a, b, d) refl
