-- ===== src/Config.antt =====
-- internal/config/config.go: the settings. A Go `int` is an integer.
pub mod Load
use order_sync.Base.{String, ◌*◌}
use order_sync.Base.Int.{ℤ, pos}

pub record Config : Type 0 where
  pub port : ℤ
  pub database_url : String
  pub sap_api_url : String
  pub hardware_sync_delay_seconds : ℤ
  pub sap_timeout_ms : ℤ
  pub sap_max_attempts : ℤ
  pub sap_max_total_attempts : ℤ
  pub sap_recovery_window_seconds : ℤ
  pub sap_listener_reconnect_max_ms : ℤ
  pub webhook_secret : String

abbrev pub default_sap_max_attempts : ℤ
default_sap_max_attempts = pos 3

abbrev pub default_sap_max_total_attempts : ℤ
default_sap_max_total_attempts = pos 5

abbrev pub default_sap_recovery_window_seconds : ℤ
default_sap_recovery_window_seconds = pos (15 * 60)

abbrev pub default_sap_listener_reconnect_max_ms : ℤ
default_sap_listener_reconnect_max_ms = pos 1000
