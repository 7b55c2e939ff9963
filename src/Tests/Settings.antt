-- ===== src/Tests/Settings.antt =====
-- Load with four variables set.
use order_sync.Base.{
  ◌*◌, ◌^◌, String, some, false, true, ◌≡◌, refl, arith, is_empty, text_eq, if◌then◌else◌,
}
use order_sync.Base.Int.{pos, ◌≤ℤ◌}
use order_sync.Config.{Config}
use order_sync.Config.Load.{Environment, ◌>>=◌, is_url, int_env, numbers_valid, checked, load}
use order_sync.Contracts.{Result}
use order_sync.Worker.Retry.{max_attempts, max_total_attempts, recovery_window}
use order_sync.Worker.Retry.Settings.{IsRead, loaded_settings}
use order_sync.Tests.Data.{cfg}

abbrev variable : String → String
variable name =
    if text_eq name "DATABASE_URL"
    then "postgres://localhost"
    else (if text_eq name "SAP_API_URL"
        then "http://mock-sap/orders"
        else (if text_eq name "SAP_MAX_ATTEMPTS" then "7" else ""))

abbrev environment : Environment
environment = record {
  getenv = variable;
  atoi = λ s. some (pos 7);
  parse_request_uri = λ s. some ("http", "mock-sap");
}

abbrev seven_attempts : Config
seven_attempts = record cfg { sap_max_total_attempts = pos 7 }

load_seven : load environment ≡ Result.ok seven_attempts
unfolding load int_env checked numbers_valid ◌>>=◌ is_empty text_eq
load_seven = refl

loaded_settings_example :
    IsRead environment seven_attempts
    × (is_empty seven_attempts.database_url ≡ false)
    × (is_url (environment.parse_request_uri seven_attempts.sap_api_url) ≡ true)
    × (pos (max_attempts seven_attempts) ≡ seven_attempts.sap_max_attempts)
    × (pos (max_total_attempts seven_attempts) ≡ seven_attempts.sap_max_total_attempts)
    × (pos 0 ≤ℤ seven_attempts.hardware_sync_delay_seconds)
    × (recovery_window seven_attempts ≡ pos (900 * 10 ^ 9))
loaded_settings_example =
    loaded_settings environment seven_attempts 900 load_seven refl (omega arith)
