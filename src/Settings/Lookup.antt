-- ===== src/Settings/Lookup.antt =====
-- The table as a map from keys to values, and the setters and getters.
use crypto_sim_backend.Common.{
  any, ◌++◌, true, ◌⊎◌, ℕ, ◌≡◌, ◌≢◌, refl, ap, get_or, text_eq_sym, ◌∙◌, if◌then◌else◌, Bool, false,
  List, [], ◌∷◌, find?, Option, none, some, Text, text, text_eq, text_eq-eq, err, Option-cases,
  Bool-cases, inl, inr, arith, find?-passes,
}
use crypto_sim_backend.Auth.Libraries.{Bcrypt}
use crypto_sim_backend.Auth.Admins.{Admin, has_username}
use crypto_sim_backend.Settings.Service.{
  Json, SystemSetting, UpdateSettingDto, SettingsError, has_key, get_setting, update_setting,
  BatchRun, finished, writes, get_trading_channels, get_customer_service, get_latency,
  get_managed_mode, update_managed_mode, get_share_config, get_ip_whitelist, get_deposit_notice,
  managed_mode_key, channels_key, customer_service_key, latency_key, share_key, ip_whitelist_key,
  deposit_notice_key, is_true, value_or, UpdateAdminAccountDto, update_admin_account, is_other,
  first_admin,
}

-- What a reader sees: a value, or none, at every key.
abbrev pub View : Type 0
View = Text → Option Json

abbrev pub value_of : Option SystemSetting → Option Json
value_of none = none
value_of (some s) = some s.value

abbrev pub view : List SystemSetting → View
view settings key = value_of (find? (has_key key) settings)

abbrev pub override : UpdateSettingDto → View → View
override dto v key = if text_eq dto.key key then some dto.value else v key

-- A setting of the batch has the key and the value.
abbrev pub Offers : Text → Option Json → List UpdateSettingDto → Type 0
Offers key value [] = ⊥
Offers key value (dto ∷ dtos) =
    ((text_eq dto.key key ≡ true) × (value ≡ some dto.value)) ⊎ Offers key value dtos

view-update :
    (now id : ℕ) (dto : UpdateSettingDto) (settings : List SystemSetting) (key : Text)
    → view (update_setting now id dto settings) key ≡ override dto (view settings) key
unfolding update_setting
view-update now id dto [] key = elim (Bool-cases (text_eq dto.key key)) [
  | inl same ↦ rw same
  | inr other ↦ rw other
]
view-update now id dto (s ∷ ss) key = elim (Bool-cases (text_eq s.key dto.key)) [
  | inl hit ↦
      let at : s.key ≡ dto.key = text_eq-eq s.key dto.key hit in
      rw (hit, at)
        (elim (Bool-cases (text_eq dto.key key)) [ inl same ↦ rw same | inr other ↦ rw other ])
  | inr miss ↦ rw miss (elim (Bool-cases (text_eq s.key key)) [
    | inl same ↦ rw (same, differs (text_eq-eq s.key key same) miss)
    | inr other ↦ rw (other, view-update now id dto ss key)
  ])
]
  where
    differs : s.key ≡ key → text_eq s.key dto.key ≡ false → text_eq dto.key key ≡ false
    differs e h = rw (text_eq_sym dto.key key) (rw e at h)

Offers-here :
    (key : Text) (value : Option Json) (before : List UpdateSettingDto) (dto : UpdateSettingDto)
    (after : List UpdateSettingDto)
    → text_eq dto.key key ≡ true
    → value ≡ some dto.value
    → Offers key value (before ++ (dto ∷ after))
Offers-here key value [] dto after h e = inl (h, e)
Offers-here key value (b ∷ before) dto after h e = inr (Offers-here key value before dto after h e)

Offers-later :
    (key : Text) (value : Option Json) (before : List UpdateSettingDto) (dto : UpdateSettingDto)
    (after : List UpdateSettingDto)
    → Offers key value (before ++ after)
    → Offers key value (before ++ (dto ∷ after))
Offers-later key value [] dto after o = inr o
Offers-later key value (b ∷ before) dto after (inl here) = inl here
Offers-later key value (b ∷ before) dto after (inr o) =
    inr (Offers-later key value before dto after o)

any-missing :
    (key : Text) (before : List UpdateSettingDto) (dto : UpdateSettingDto)
    (after : List UpdateSettingDto)
    → any (λ d. text_eq d.key key) (before ++ after) ≡ false
    → text_eq dto.key key ≡ false
    → any (λ d. text_eq d.key key) (before ++ (dto ∷ after)) ≡ false
any-missing key [] dto after h other = ground arith
any-missing key (b ∷ before) dto after h other = ground (arith, any-missing key before dto after)

-- What a batch whose writes all go through leaves at every key, in whatever order the database makes
-- its writes: where no setting of the batch has the key, what was there before; otherwise the value of
-- a setting of the batch with that key. So a key that stands once in the batch gets its value.
pub update_settings_batch-refines :
    {dtos : List UpdateSettingDto} {settings settings' : List SystemSetting}
    → BatchRun dtos settings settings'
    → (key : Text)
    → ((any (λ d. text_eq d.key key) dtos ≡ false) × (view settings' key ≡ view settings key))
      ⊎ Offers key (view settings' key) dtos
update_settings_batch-refines finished key = inl (refl, refl)
update_settings_batch-refines {settings = settings} {settings' = settings'}
      (writes now id before dto after rest) key =
    elim (update_settings_batch-refines rest key) [
      | inr offered ↦ inr (Offers-later key (view settings' key) before dto after offered)
      | inl (missing, kept) ↦
          let e = kept ∙ view-update now id dto settings key in
          elim (Bool-cases (text_eq dto.key key)) [
            | inl same ↦
                inr (Offers-here key (view settings' key) before dto after same (rw same at e))
            | inr other ↦ inl (any-missing key before dto after missing other, rw other at e)
          ]
    ]

value-view :
    (default : Json) (key : Text) (settings : List SystemSetting)
    → value_or default (get_setting key settings) ≡ get_or (view settings key) default
unfolding get_setting
value-view default key settings = elim (Option-cases (find? (has_key key) settings)) [
  | inl missing ↦ rw missing
  | inr (s, found) ↦ rw found
]

-- The switch of the managed mode is read as it was written, and no other setting with a getter changes.
pub update_managed_mode-get :
    (now id : ℕ) (enabled : Bool) (settings : List SystemSetting)
    → (get_managed_mode (update_managed_mode now id enabled settings) ≡ enabled)
      × (get_trading_channels (update_managed_mode now id enabled settings)
          ≡ get_trading_channels settings)
      × (get_customer_service (update_managed_mode now id enabled settings)
          ≡ get_customer_service settings)
      × (get_latency (update_managed_mode now id enabled settings) ≡ get_latency settings)
      × (get_share_config (update_managed_mode now id enabled settings) ≡ get_share_config settings)
      × (get_ip_whitelist (update_managed_mode now id enabled settings) ≡ get_ip_whitelist settings)
      × (get_deposit_notice (update_managed_mode now id enabled settings)
          ≡ get_deposit_notice settings)
unfolding get_managed_mode update_managed_mode get_trading_channels get_customer_service get_latency
    get_share_config get_ip_whitelist get_deposit_notice
update_managed_mode-get now id enabled settings = (
  ap is_true (read managed_mode_key (Json.flag false)),
  read channels_key _,
  read customer_service_key _,
  read latency_key _,
  read share_key _,
  read ip_whitelist_key _,
  read deposit_notice_key _,
)
  where
    dto : UpdateSettingDto
    dto = record {
      key = managed_mode_key;
      value = Json.flag enabled;
      description = some (text "是否启用系统托管模式，启用后所有交易都将标记为托管交易");
    }

    read :
        (key : Text) (default : Json)
        → value_or default (get_setting key (update_setting now id dto settings)) ≡ (
            if text_eq managed_mode_key key
            then Json.flag enabled
            else value_or default (get_setting key settings))
    read key default =
        value-view default key (update_setting now id dto settings)
        ∙ ap (λ (o : Option Json). get_or o default) (view-update now id dto settings key)
        ∙ elim (Bool-cases (text_eq managed_mode_key key)) [
          | inl same ↦ rw same
          | inr other ↦ rw (other, value-view default key settings)
        ]

never_other :
    (name : Text) (admins : List Admin) → is_other name (find? (has_username name) admins) ≡ false
never_other name admins = elim (Option-cases (find? (has_username name) admins)) [
  | inl missing ↦ rw missing
  | inr (a, found) ↦ rw (found, find?-passes (has_username name) admins a found)
]

-- The check of the username cannot fail: it looks for a row with the name and asks whether the row has
-- another name. So a name that is taken is never refused as taken.
pub update_admin_account-unchecked :
    (b : Bcrypt) (salt : ℕ) (dto : UpdateAdminAccountDto) (admins : List Admin)
    → update_admin_account b salt dto admins ≢ err SettingsError.username_exists
unfolding update_admin_account
update_admin_account-unchecked b salt dto admins h =
    let passed : is_other dto.username (find? (has_username dto.username) admins) ≡ false =
      never_other dto.username admins in
    elim (Option-cases (first_admin admins)) [
      | inl missing ↦ ground arith
      | inr (a, found) ↦ ground arith
    ]
