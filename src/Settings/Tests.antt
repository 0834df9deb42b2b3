-- ===== src/Settings/Tests.antt =====
-- The theorems on the settings at concrete calls.
use crypto_sim_backend.Common.{any, text_eq, ◌⊎◌, false, ◌≡◌, true, false, [], ◌∷◌, none, text}
use crypto_sim_backend.Settings.Service.{
  Json, UpdateSettingDto, managed_mode_key, update_setting, BatchRun, finished, writes,
  update_managed_mode, get_managed_mode, get_trading_channels, get_customer_service, get_latency,
  get_share_config, get_ip_whitelist, get_deposit_notice,
}
use crypto_sim_backend.Settings.Lookup.{
  view, Offers, update_settings_batch-refines, update_managed_mode-get,
}

abbrev switch_on : UpdateSettingDto
switch_on = record { key = text "trading.managedMode"; value = Json.flag true; description = none }

abbrev switch_off : UpdateSettingDto
switch_off = record switch_on { value = Json.flag false }

-- The second write comes first.
abbrev both_ways :
    BatchRun
      (switch_on ∷ switch_off ∷ [])
      []
      (update_setting 11 1 switch_on (update_setting 10 0 switch_off []))
both_ways = writes 10 0 (switch_on ∷ []) switch_off [] (writes 11 1 [] switch_on [] finished)

update_settings_batch-refines_example :
    ((any (λ d. text_eq d.key managed_mode_key) (switch_on ∷ switch_off ∷ []) ≡ false)
      × (view (update_setting 11 1 switch_on (update_setting 10 0 switch_off [])) managed_mode_key
          ≡ view [] managed_mode_key))
    ⊎ Offers managed_mode_key
        (view (update_setting 11 1 switch_on (update_setting 10 0 switch_off [])) managed_mode_key)
        (switch_on ∷ switch_off ∷ [])
update_settings_batch-refines_example = update_settings_batch-refines both_ways managed_mode_key

update_managed_mode-get_example :
    (get_managed_mode (update_managed_mode 10 1 true []) ≡ true)
    × (get_trading_channels (update_managed_mode 10 1 true []) ≡ get_trading_channels [])
    × (get_customer_service (update_managed_mode 10 1 true []) ≡ get_customer_service [])
    × (get_latency (update_managed_mode 10 1 true []) ≡ get_latency [])
    × (get_share_config (update_managed_mode 10 1 true []) ≡ get_share_config [])
    × (get_ip_whitelist (update_managed_mode 10 1 true []) ≡ get_ip_whitelist [])
    × (get_deposit_notice (update_managed_mode 10 1 true []) ≡ get_deposit_notice [])
update_managed_mode-get_example = update_managed_mode-get 10 1 true []
