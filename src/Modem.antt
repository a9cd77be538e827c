-- ===== src/Modem.antt =====
-- src/modem.cpp: the modem, which brings the module up and asks for the state of the network.
pub mod Wait
pub mod Registration
use a76xx.Prelude.{
  ℕ, zero, suc, ◌==◌, if◌then◌else◌, Bool, true, false, ◌&&◌, ◌||◌, Option, none, some, [], ◌∷◌,
}
use a76xx.Prelude.Int.{ℤ, pos, is_zero, eq_ℤ}
use a76xx.Serial.{
  Text, Response, ModemSerial, Cmd, ◌>>=◌, ◌>>◌, pure, timed_out, sim_pin_required,
  sim_pin_modem_error, txt, send_cmd, wait_0, wait_ok, listen,
}
use a76xx.Clients.{Session, lift, assert_bool, store_code}
use a76xx.Commands.V25ter.{command_echo}
use a76xx.Commands.StatusControl.{set_error_result_codes}
use a76xx.Commands.Network.{
  set_time_zone_urc, set_time_zone_auto_update, get_network_registration_status,
}
use a76xx.Commands.PacketDomain.{
  set_pdp_context_parameters, set_pdp_context_active_status, get_pdp_context_active_status,
  get_gprs_network_registration_status, get_lte_network_registration_status,
}
use a76xx.Commands.Sim.{PinStatus, enter_pin}
use a76xx.Commands.SerialInterface.{uart_sleep}
use a76xx.Commands.InternetService.{set_ntp_params, update_system_time}
use a76xx.Commands.Sim.{get_pin_status as get_pin_status_cmd}
use a76xx.Commands.StatusControl.{
  reset as reset_cmd, power_off as power_off_cmd,
  set_phone_functionality as set_phone_functionality_cmd, get_date_time as get_date_time_cmd,
}
use a76xx.Commands.Network.{get_network_system_mode as get_network_system_mode_cmd}
use a76xx.Commands.V25ter.{
  model_identification as model_identification_cmd,
  revision_identification as revision_identification_cmd,
}

-- `delay` is the pause of that many milliseconds. A loop `while (!tc.expired())` is given the number
-- of times at which the clock has not expired yet.
module _ {S F : Type 0} (serial : ModemSerial S F) (delay : ℕ → S → S) where
  -- waitATUnresponsive and waitATResponsive: AT is sent until the awaited response comes.
  unfoldable pub wait_at : (Response → Bool) → ℕ → Cmd S Bool
  wait_at awaited zero = pure false
  wait_at awaited (suc rounds) = do
    send_cmd serial (txt "AT" ∷ [])
    rsp ← wait_0 serial 1000 true true
    if awaited rsp then pure true else (λ s. wait_at awaited rounds (delay 100 s))

  unfoldable pub is_timeout : Response → Bool
  is_timeout Response.timeout = true
  is_timeout _ = false

  unfoldable pub is_ok : Response → Bool
  is_ok Response.ok = true
  is_ok _ = false

  unfoldable pub wait_at_unresponsive : ℕ → Cmd S Bool
  wait_at_unresponsive rounds = wait_at is_timeout rounds

  unfoldable pub wait_at_responsive : ℕ → Cmd S Bool
  wait_at_responsive rounds = wait_at is_ok rounds

  -- The switch on the status of the SIM card.
  unfoldable pub unlock_sim : Option Text → PinStatus → Cmd (Session S) Bool
  unlock_sim pincode PinStatus.ready c = (true, c)
  unlock_sim pincode PinStatus.uknown c =
      (false, record { last_error = sim_pin_modem_error; port = c.port })
  unlock_sim none _ c = (false, record { last_error = sim_pin_required; port = c.port })
  unlock_sim (some pin) _ c = assert_bool (enter_pin serial pin) (pure true) c

  -- getPINStatus and the switch. `rest` is the memory that getPINStatus reads behind its buffer.
  unfoldable pub check_sim : Text → Option Text → Cmd (Session S) Bool
  check_sim rest pincode c =
      let ((retcode, status), s) = get_pin_status_cmd serial rest c.port in
      if is_zero retcode
      then unlock_sim pincode status (record { last_error = c.last_error; port = s })
      else (false, record { last_error = retcode; port = s })

  unfoldable pub init : Text → Option Text → ℕ → Cmd (Session S) Bool
  init rest pincode rounds = do
    responsive ← lift (wait_at_responsive rounds)
    if responsive
        then assert_bool (command_echo serial false) (
            assert_bool (set_error_result_codes serial 0) (
              assert_bool (set_time_zone_urc serial false)
                (assert_bool (set_time_zone_auto_update serial true) (check_sim rest pincode))))
        else pure false

  unfoldable pub gprs_connect : Text → Cmd (Session S) Bool
  gprs_connect apn =
      assert_bool (set_pdp_context_parameters serial 1 apn)
        (assert_bool (set_pdp_context_active_status serial 1 true) (pure true))

  -- A status that the command has not written is an uninitialised variable; it is only read when
  -- the command succeeded.
  unfoldable pub is_status : ℤ → Option ℤ → Bool
  is_status status none = false
  is_status status (some z) = eq_ℤ z status

  unfoldable pub is_gprs_connected : Cmd (Session S) Bool
  is_gprs_connected = do
    (retcode, status) ← store_code (get_pdp_context_active_status serial 1)
    pure (is_zero retcode && is_status (pos 1) status)

  -- The switch on `net`: what the command wrote to `status`.
  unfoldable pub registration_switch : ℕ → Cmd (Session S) (Option ℤ)
  registration_switch net =
      if net == 0
      then (do (retcode, status) ← store_code (get_network_registration_status serial); pure status)
      else if net == 1
      then (do
        (retcode, status) ← store_code (get_gprs_network_registration_status serial)
        pure status)
      else if net == 2
      then (do
        (retcode, status) ← store_code (get_lte_network_registration_status serial)
        pure status)
      else pure none

  unfoldable pub status_or : ℤ → Option ℤ → ℤ
  status_or unset none = unset
  status_or unset (some status) = status

  -- `unset` is what the variable `status` holds before it is written.
  unfoldable pub get_registration_status : ℤ → ℕ → Cmd (Session S) ℤ
  get_registration_status unset net = do
    status ← registration_switch net
    (λ c. ((if is_zero c.last_error then status_or unset status else timed_out), c))

  unfoldable pub is_registered : ℤ → ℕ → Cmd (Session S) Bool
  is_registered unset net = do
    stat ← get_registration_status unset net
    pure (eq_ℤ stat (pos 1) || eq_ℤ stat (pos 5))

  unfoldable pub wait_for_registration : ℤ → ℕ → ℕ → Cmd (Session S) Bool
  wait_for_registration unset net zero = pure false
  wait_for_registration unset net (suc rounds) = do
    registered ← is_registered unset net
    if registered then pure true else (λ c.
        wait_for_registration unset net rounds
          (record { last_error = c.last_error; port = delay 200 c.port }))

  unfoldable pub get_network_system_mode : ℤ → Cmd (Session S) ℤ
  get_network_system_mode unset = do
    (retcode, mode) ← store_code (get_network_system_mode_cmd serial)
    pure (if is_zero retcode then status_or unset mode else timed_out)

  -- `rounds` and `rounds'` are those of the two loops.
  unfoldable pub reset : ℕ → ℕ → Cmd (Session S) Bool
  reset rounds rounds' = lift (do
    retcode ← reset_cmd serial
    unresponsive ← (if is_zero retcode then wait_at_unresponsive rounds else pure false)
    if unresponsive then wait_at_responsive rounds' else pure false)

  -- `wait` is whether the timeout is not 0.
  unfoldable pub power_off : Bool → ℕ → Cmd (Session S) Bool
  power_off wait rounds = lift (do
    retcode ← power_off_cmd serial
    if is_zero retcode then if wait then wait_at_unresponsive rounds else pure true else pure false)

  unfoldable pub set_phone_functionality : ℕ → Bool → Cmd (Session S) Bool
  set_phone_functionality fun reset_first =
      assert_bool (set_phone_functionality_cmd serial fun reset_first) (pure true)

  unfoldable pub radio_off : Cmd (Session S) Bool
  radio_off = set_phone_functionality 4 false

  unfoldable pub radio_on : Cmd (Session S) Bool
  radio_on = set_phone_functionality 1 false

  unfoldable pub restart : Text → ℕ → ℕ → ℕ → Cmd (Session S) Bool
  restart rest rounds rounds' rounds_init = do
    done ← reset rounds rounds'
    if done then init rest none rounds_init else pure false

  unfoldable pub sleep : Cmd (Session S) Bool
  sleep = assert_bool (uart_sleep serial 2) (pure true)

  unfoldable pub wake_up : Cmd (Session S) Bool
  wake_up = lift (do send_cmd serial (txt "AT" ∷ []); rsp ← wait_ok serial; pure (is_ok rsp))

  -- The methods that store the code in any case.
  unfoldable pub stored : {A : Type 0} → Cmd S (ℤ × A) → Cmd (Session S) (Bool × A)
  stored m = do (retcode, a) ← store_code m; pure (is_zero retcode, a)

  unfoldable pub model_identification : ℕ → Cmd (Session S) (Bool × Option Text)
  model_identification len = stored (model_identification_cmd serial len)

  unfoldable pub revision_identification : ℕ → Cmd (Session S) (Bool × Option Text)
  revision_identification len = stored (revision_identification_cmd serial len)

  unfoldable pub sync_time : ℤ → ℕ → Text → Cmd (Session S) Bool
  sync_time timezone millis host =
      assert_bool (set_ntp_params serial host timezone)
        (assert_bool (update_system_time serial millis) (pure true))

  unfoldable pub get_date_time : Text → Cmd (Session S) (Bool × Option Text)
  get_date_time datetime = stored (get_date_time_cmd serial datetime)

  unfoldable pub listen_urc : ℕ → Cmd (Session S) Response
  listen_urc millis = lift (listen serial millis)
