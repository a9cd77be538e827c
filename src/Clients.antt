-- ===== src/Clients.antt =====
-- src/clients/base.h and the macros of src/A76XX.h: a client keeps the code of the last command that
-- failed beside the transport, and the client classes run their commands by one macro.
pub mod Steps
pub mod Order
mod Tests
pub mod Secure
pub mod Mqtt
pub mod Http
pub mod Sms
pub mod Gnss
use a76xx.Prelude.{Bool, false, if◌then◌else◌}
use a76xx.Prelude.Int.{ℤ, is_zero}
use a76xx.Serial.{Cmd}

-- `_last_error_code`, and the state of the transport.
pub record Session (S : Type 0) : Type 0 where
  pub last_error : ℤ
  pub port : S

module _ {S : Type 0} where
  -- A command that leaves the last error alone.
  unfoldable pub lift : {A : Type 0} → Cmd S A → Cmd (Session S) A
  lift m c = let (a, s) = m c.port in (a, record { last_error = c.last_error; port = s })

  -- A command and A76XX_CLIENT_RETCODE_ASSERT_BOOL, in front of the rest of the function.
  unfoldable pub assert_bool : Cmd S ℤ → Cmd (Session S) Bool → Cmd (Session S) Bool
  assert_bool m rest c =
      let (retcode, s) = m c.port in
      if is_zero retcode
      then rest (record { last_error = c.last_error; port = s })
      else (false, record { last_error = retcode; port = s })

  -- A command whose code is stored in any case, and with it what it reads.
  unfoldable pub store_code : {A : Type 0} → Cmd S (ℤ × A) → Cmd (Session S) (ℤ × A)
  store_code m c =
      let ((retcode, a), s) = m c.port in ((retcode, a), record { last_error = retcode; port = s })

  -- getLastError
  unfoldable pub get_last_error : Cmd (Session S) ℤ
  get_last_error c = (c.last_error, c)
