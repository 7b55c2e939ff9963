-- ===== src/Worker/Retry/Settings.antt =====
-- What the worker may rely on in a configuration that Load of internal/config/config.go gave it.
use order_sync.Base.{
  ℕ, ◌*◌, ◌^◌, ◌<◌, Bool, true, false, if◌then◌else◌, ◌≡◌, refl, subst, arith, is_empty,
}
use order_sync.Base.Int.{pos, ◌*ℤ◌, ◌≤ℤ◌, wrap_64}
use order_sync.Config.{Config}
use order_sync.Config.Load.{Environment, ◌>>=◌, is_url, int_env, numbers_valid, checked, load}
use order_sync.Contracts.{Error, Result}
use order_sync.Worker.Retry.{max_attempts, max_total_attempts, recovery_window}

bind_ok :
    {A B : Type 0} (r : Result A) (f : A → Result B) (b : B)
    → (r >>= f) ≡ Result.ok b
    → (a : A) × (r ≡ Result.ok a) × (f a ≡ Result.ok b)
unfolding ◌>>=◌
bind_ok (Result.ok a) f b h = (a, refl, h)
bind_ok (Result.err e) f b h = ground arith

-- A configuration that passed the checks of Load.
record IsChecked (e : Environment) (c : Config) : Type 0 where
  has_database : is_empty c.database_url ≡ false
  has_sap : is_empty c.sap_api_url ≡ false
  has_host : is_url (e.parse_request_uri c.sap_api_url) ≡ true
  numbers : numbers_valid c ≡ true

if_err :
    {A : Type 0} (b : Bool) (e : Error) (r : Result A) (a : A)
    → (if b then Result.err e else r) ≡ Result.ok a
    → (b ≡ false) × (r ≡ Result.ok a)
if_err true e r a h = ground arith
if_err false e r a h = (refl, h)

if_ok :
    {A : Type 0} (b : Bool) (e : Error) (r : Result A) (a : A)
    → (if b then r else Result.err e) ≡ Result.ok a
    → (b ≡ true) × (r ≡ Result.ok a)
if_ok true e r a h = (refl, h)
if_ok false e r a h = ground arith

checked-IsChecked :
    (e : Environment) (c c' : Config) → checked e c ≡ Result.ok c' → (c ≡ c') × IsChecked e c'
unfolding checked
checked-IsChecked e c c' h =
    let (database, h) = if_err (is_empty c.database_url) _ _ c' h in
    let (sap, h) = if_err (is_empty c.sap_api_url) _ _ c' h in
    let (host, h) = if_ok (is_url (e.parse_request_uri c.sap_api_url)) _ _ c' h in
    let (numbers, h) = if_ok (numbers_valid c) _ _ c' h in
    (
      ok_inj c c' h,
      subst (IsChecked e) (ok_inj c c' h)
          (record { has_database = database; has_sap = sap; has_host = host; numbers = numbers }),
    )
  where
    ok_inj : (c c' : Config) → Result.ok c ≡ Result.ok c' → c ≡ c'
    ok_inj c c' h = cc h

-- Each number of the configuration is the one that its variable gives.
pub record IsRead (e : Environment) (c : Config) : Type 0 where
  pub port : int_env e "PORT" (pos 3000) ≡ Result.ok c.port
  pub hardware_delay :
      int_env e "HARDWARE_SYNC_DELAY_SECONDS" (pos 30) ≡ Result.ok c.hardware_sync_delay_seconds
  pub sap_timeout : int_env e "SAP_TIMEOUT_MS" (pos 3000) ≡ Result.ok c.sap_timeout_ms
  pub attempts : int_env e "SAP_ATTEMPTS_BEFORE_WAITING" (pos 3) ≡ Result.ok c.sap_max_attempts
  pub total : int_env e "SAP_MAX_ATTEMPTS" (pos 5) ≡ Result.ok c.sap_max_total_attempts
  pub window :
      int_env e "SAP_RECOVERY_WINDOW_SECONDS" (pos 900) ≡ Result.ok c.sap_recovery_window_seconds
  pub reconnect :
      int_env e "SAP_LISTENER_RECONNECT_MAX_MS" (pos 1000)
      ≡ Result.ok c.sap_listener_reconnect_max_ms

load-IsRead : (e : Environment) (c : Config) → load e ≡ Result.ok c → IsRead e c × IsChecked e c
unfolding load
load-IsRead e c h =
    let (_, port, h) = bind_ok _ _ c h in
    let (_, hardware_delay, h) = bind_ok _ _ c h in
    let (_, sap_timeout, h) = bind_ok _ _ c h in
    let (_, attempts, h) = bind_ok _ _ c h in
    let (_, total, h) = bind_ok _ _ c h in
    let (_, window, h) = bind_ok _ _ c h in
    let (_, reconnect, h) = bind_ok _ _ c h in
    let (same, checks) = checked-IsChecked e _ c h in
    (
      subst (IsRead e) same (record {
        port = port;
        hardware_delay = hardware_delay;
        sap_timeout = sap_timeout;
        attempts = attempts;
        total = total;
        window = window;
        reconnect = reconnect;
      }),
      checks,
    )

-- Worker.maxAttempts and Worker.maxTotalAttempts are the settings, not their defaults.
settings_used :
    (c : Config)
    → numbers_valid c ≡ true
    → (pos (max_attempts c) ≡ c.sap_max_attempts)
      × (pos (max_total_attempts c) ≡ c.sap_max_total_attempts)
      × (pos 0 ≤ℤ c.hardware_sync_delay_seconds)
unfolding numbers_valid max_attempts max_total_attempts
settings_used c h = (ground arith, ground arith, ground arith)

window_of_seconds :
    (c : Config) (n : ℕ)
    → c.sap_recovery_window_seconds ≡ pos n
    → numbers_valid c ≡ true
    → n * 10 ^ 9 < 2 ^ 63
    → recovery_window c ≡ pos (n * 10 ^ 9)
unfolding recovery_window wrap_64 ◌*ℤ◌ numbers_valid
window_of_seconds c n e h k = rw e (ground arith)

-- A configuration that Load gives, with a recovery window of `n` seconds that an int64 of nanoseconds
-- can hold: each number is the one its variable gives, or its default where the variable is empty; the
-- database and the SAP URL are set; the worker uses the attempts as they are set, with no default in
-- their place, its window is `n` seconds, and the delay of hardware orders is not negative.
pub loaded_settings :
    (e : Environment) (c : Config) (n : ℕ)
    → load e ≡ Result.ok c
    → c.sap_recovery_window_seconds ≡ pos n
    → n * 10 ^ 9 < 2 ^ 63
    → IsRead e c
      × (is_empty c.database_url ≡ false)
      × (is_url (e.parse_request_uri c.sap_api_url) ≡ true)
      × (pos (max_attempts c) ≡ c.sap_max_attempts)
      × (pos (max_total_attempts c) ≡ c.sap_max_total_attempts)
      × (pos 0 ≤ℤ c.hardware_sync_delay_seconds)
      × (recovery_window c ≡ pos (n * 10 ^ 9))
loaded_settings e c n h seconds fits =
    let (read, checks) = load-IsRead e c h in
    let (attempts, total, delay) = settings_used c checks.numbers in
    (
      read,
      checks.has_database,
      checks.has_host,
      attempts,
      total,
      delay,
      window_of_seconds c n seconds checks.numbers fits,
    )
