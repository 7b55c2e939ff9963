-- ===== src/Config/Load.antt =====
-- `Load` and `intEnv` of internal/config/config.go.
use order_sync.Base.{String, Bool, false, not, ◌&&◌, Option, none, some, is_empty, if◌then◌else◌}
use order_sync.Base.Int.{ℤ, pos, ltb_ℤ, leb_ℤ}
use order_sync.Config.{
  Config, default_sap_max_attempts, default_sap_max_total_attempts,
  default_sap_recovery_window_seconds, default_sap_listener_reconnect_max_ms,
}
use order_sync.Contracts.{Error, Result}

-- os.Getenv, strconv.Atoi, and the scheme and host that url.ParseRequestURI finds.
pub record Environment : Type 0 where
  pub getenv : String → String
  pub atoi : String → Option ℤ
  pub parse_request_uri : String → Option (String × String)

-- `if err != nil { return ..., err }`
infixl 5 ◌>>=◌
unfoldable pub ◌>>=◌ : {A B : Type 0} → Result A → (A → Result B) → Result B
Result.ok a >>= f = f a
Result.err e >>= f = Result.err e

abbrev pub parsed_int : Option ℤ → Result ℤ
parsed_int none = Result.err (
    Error.wrap "numeric configuration values are invalid: %s must be an integer: %w"
      (Error.message "strconv.Atoi"))
parsed_int (some n) = Result.ok n

-- intEnv.
unfoldable pub int_env : Environment → String → ℤ → Result ℤ
int_env e name fallback =
    if is_empty (e.getenv name) then Result.ok fallback else parsed_int (e.atoi (e.getenv name))

abbrev pub is_url : Option (String × String) → Bool
is_url none = false
is_url (some (scheme, host)) = not (is_empty scheme) && not (is_empty host)

unfoldable pub numbers_valid : Config → Bool
numbers_valid c =
    ltb_ℤ (pos 0) c.port
    && leb_ℤ (pos 0) c.hardware_sync_delay_seconds
    && ltb_ℤ (pos 0) c.sap_timeout_ms
    && ltb_ℤ (pos 0) c.sap_max_attempts
    && ltb_ℤ (pos 0) c.sap_max_total_attempts
    && ltb_ℤ (pos 0) c.sap_recovery_window_seconds
    && ltb_ℤ (pos 0) c.sap_listener_reconnect_max_ms

-- The checks at the end of Load.
unfoldable pub checked : Environment → Config → Result Config
unfolding numbers_valid
checked e c =
    if is_empty c.database_url
    then Result.err (Error.message "DATABASE_URL is required")
    else (if is_empty c.sap_api_url
        then Result.err (Error.message "SAP_API_URL is required")
        else (if is_url (e.parse_request_uri c.sap_api_url)
            then (if numbers_valid c
                then Result.ok c
                else Result.err (Error.message "numeric configuration values are invalid"))
            else Result.err (Error.message "SAP_API_URL must be a valid URL")))

-- Load.
unfoldable pub load : Environment → Result Config
load e = do
  port ← int_env e "PORT" (pos 3000)
  hardware_delay ← int_env e "HARDWARE_SYNC_DELAY_SECONDS" (pos 30)
  sap_timeout ← int_env e "SAP_TIMEOUT_MS" (pos 3000)
  max_attempts ← int_env e "SAP_ATTEMPTS_BEFORE_WAITING" default_sap_max_attempts
  max_total_attempts ← int_env e "SAP_MAX_ATTEMPTS" default_sap_max_total_attempts
  recovery_window ← int_env e "SAP_RECOVERY_WINDOW_SECONDS" default_sap_recovery_window_seconds
  reconnect_max ← int_env e "SAP_LISTENER_RECONNECT_MAX_MS" default_sap_listener_reconnect_max_ms
  checked e (record {
    port = port;
    database_url = e.getenv "DATABASE_URL";
    sap_api_url = e.getenv "SAP_API_URL";
    hardware_sync_delay_seconds = hardware_delay;
    sap_timeout_ms = sap_timeout;
    sap_max_attempts = max_attempts;
    sap_max_total_attempts = max_total_attempts;
    sap_recovery_window_seconds = recovery_window;
    sap_listener_reconnect_max_ms = reconnect_max;
    webhook_secret = e.getenv "WEBHOOK_SECRET";
  })
