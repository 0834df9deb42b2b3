-- ===== src/Settings/Service.antt =====
-- `SettingsService`. The writes of a batch take place in the order of its list.
use crypto_sim_backend.Common.{
  ℕ, ℤ, pos, ltb, ◌==◌, if◌then◌else◌, Bool, true, false, not, ◌&&◌, List, [], ◌∷◌, ◌++◌, any,
  find?, filter, Option, none, some, get_or, Text, text, text_eq, Result, ok, err, ◌>>=◌, ◌>>◌,
  throw_if, or_throw,
}
use crypto_sim_backend.Common.Table.{update}
use crypto_sim_backend.Common.Pages.{sort_by}
use crypto_sim_backend.Auth.Libraries.{Bcrypt}
use crypto_sim_backend.Auth.Admins.{Admin, admin_key, has_username, filled}

mutual
  pub data Json : Type 0 where
    null : Json
    flag : Bool → Json
    number : ℤ → Json
    str : Text → Json
    arr : Items → Json
    obj : Fields → Json

  pub data Items : Type 0 where
    no_items : Items
    item : Json → Items → Items

  pub data Fields : Type 0 where
    no_fields : Fields
    field : Text → Json → Fields → Fields

pub record SystemSetting : Type 0 where
  pub id : ℕ
  pub key : Text
  pub value : Json
  pub category : Text
  pub description : Option Text
  pub created_at : ℕ
  pub updated_at : ℕ

pub record UpdateSettingDto : Type 0 where
  pub key : Text
  pub value : Json
  pub description : Option Text

pub data SettingsError : Type 0 where
  setting_not_found username_exists username_not_unique admin_not_found : SettingsError

abbrev pub before_dot : Text → Text
before_dot [] = []
before_dot (c ∷ s) = if c == b'.' then [] else c ∷ before_dot s

abbrev pub or_general : Text → Text
or_general [] = text "general"
or_general (c ∷ s) = c ∷ s

unfoldable pub extract_category : Text → Text
extract_category key = or_general (before_dot key)

abbrev pub has_key : Text → SystemSetting → Bool
has_key key s = text_eq s.key key

abbrev pub fits_category : Option Text → SystemSetting → Bool
fits_category none s = true
fits_category (some c) s = text_eq s.category c

-- `result[setting.category].push(setting)`
abbrev pub push_setting :
    SystemSetting → List (Text × List SystemSetting) → List (Text × List SystemSetting)
push_setting s [] = (s.category, s ∷ []) ∷ []
push_setting s ((c, ss) ∷ groups) =
    let rest = push_setting s groups in
    if text_eq c s.category then (c, ss ++ (s ∷ [])) ∷ groups else (c, ss) ∷ rest

abbrev pub group_settings :
    List SystemSetting → List (Text × List SystemSetting) → List (Text × List SystemSetting)
group_settings [] groups = groups
group_settings (s ∷ ss) groups = group_settings ss (push_setting s groups)

-- `before` is the database's order by category and key. An empty category is none.
unfoldable pub get_all_settings :
    (SystemSetting → SystemSetting → Bool)
    → Option Text
    → List SystemSetting
    → List (Text × List SystemSetting)
get_all_settings before category settings =
    group_settings (sort_by before (filter (fits_category (filled category)) settings)) []

unfoldable pub get_setting : Text → List SystemSetting → Result SettingsError SystemSetting
get_setting key settings = or_throw (find? (has_key key) settings) SettingsError.setting_not_found

abbrev pub new_setting : ℕ → ℕ → UpdateSettingDto → SystemSetting
new_setting now id dto = record {
  id = id;
  key = dto.key;
  value = dto.value;
  category = extract_category dto.key;
  description = dto.description;
  created_at = now;
  updated_at = now;
}

abbrev pub or_old : Option Text → Option Text → Option Text
or_old none old = old
or_old (some d) old = some d

abbrev pub updated_setting : ℕ → UpdateSettingDto → SystemSetting → SystemSetting
updated_setting now dto s = record s {
  value = dto.value;
  description = or_old dto.description s.description;
  updated_at = now;
}

-- The `upsert`: the row of the key is updated, or a new one created.
unfoldable pub update_setting : ℕ → ℕ → UpdateSettingDto → List SystemSetting → List SystemSetting
unfolding extract_category
update_setting now id dto [] = new_setting now id dto ∷ []
update_setting now id dto (s ∷ ss) =
    let rest = update_setting now id dto ss in
    if has_key dto.key s then updated_setting now dto s ∷ ss else s ∷ rest

-- `Promise.all` of the upserts: they start together, and the database makes them one after the other
-- in an order of its own. Each write is that of any setting that is still outstanding, at its time and
-- with the identifier that a created row gets. A run in which a write fails is not among these.
pub data BatchRun : List UpdateSettingDto → List SystemSetting → List SystemSetting → Type 0 where
  finished : {settings : List SystemSetting} → BatchRun [] settings settings
  writes :
      {settings settings' : List SystemSetting} (now id : ℕ) (before : List UpdateSettingDto)
      (dto : UpdateSettingDto) (after : List UpdateSettingDto)
      → BatchRun (before ++ after) (update_setting now id dto settings) settings'
      → BatchRun (before ++ (dto ∷ after)) settings settings'

abbrev pub value_or : Json → Result SettingsError SystemSetting → Json
value_or default (ok s) = s.value
value_or default (err e) = default

-- A setter writes one key, a getter reads it and answers a default where it is missing.
abbrev pub write_key : ℕ → ℕ → Text → Text → Json → List SystemSetting → List SystemSetting
write_key now id key description value settings =
    update_setting now id (record { key = key; value = value; description = some description })
      settings

abbrev pub channels_key : Text
channels_key = text "trading.channels"

unfoldable pub update_trading_channels : ℕ → ℕ → Json → List SystemSetting → List SystemSetting
update_trading_channels now id value settings =
    write_key now id channels_key (text "交易渠道配置") value settings

unfoldable pub get_trading_channels : List SystemSetting → Json
unfolding get_setting
get_trading_channels settings =
    value_or (Json.arr Items.no_items) (get_setting channels_key settings)

abbrev pub customer_service_key : Text
customer_service_key = text "customer_service.config"

unfoldable pub update_customer_service : ℕ → ℕ → Json → List SystemSetting → List SystemSetting
update_customer_service now id value settings =
    write_key now id customer_service_key (text "客服窗口配置") value settings

abbrev pub default_customer_service : Json
default_customer_service = Json.obj (
    Fields.field (text "enabled") (Json.flag false) (
      Fields.field (text "email") (Json.str []) (
        Fields.field (text "position") (Json.str (text "bottom-right"))
          (Fields.field (text "theme") (Json.str (text "light")) Fields.no_fields))))

unfoldable pub get_customer_service : List SystemSetting → Json
unfolding get_setting
get_customer_service settings =
    value_or default_customer_service (get_setting customer_service_key settings)

abbrev pub latency_key : Text
latency_key = text "latency.config"

unfoldable pub update_latency : ℕ → ℕ → Json → List SystemSetting → List SystemSetting
update_latency now id value settings = write_key now id latency_key (text "延迟设置配置") value settings

abbrev pub default_latency : Json
default_latency = Json.obj (
    Fields.field (text "tradingDelay") (Json.number (pos 0)) (
      Fields.field (text "apiDelay") (Json.number (pos 0)) (
        Fields.field (text "priceUpdateDelay") (Json.number (pos 1000))
          (Fields.field (text "settlementDelay") (Json.number (pos 0)) Fields.no_fields))))

unfoldable pub get_latency : List SystemSetting → Json
unfolding get_setting
get_latency settings = value_or default_latency (get_setting latency_key settings)

abbrev pub managed_mode_key : Text
managed_mode_key = text "trading.managedMode"

-- `value === true || value === 'true'`
abbrev pub is_true : Json → Bool
is_true (Json.flag b) = b
is_true (Json.str s) = text_eq s (text "true")
is_true _ = false

unfoldable pub get_managed_mode : List SystemSetting → Bool
unfolding get_setting
get_managed_mode settings =
    is_true (value_or (Json.flag false) (get_setting managed_mode_key settings))

unfoldable pub update_managed_mode : ℕ → ℕ → Bool → List SystemSetting → List SystemSetting
update_managed_mode now id enabled settings =
    write_key now id managed_mode_key (text "是否启用系统托管模式，启用后所有交易都将标记为托管交易") (Json.flag enabled)
      settings

abbrev pub share_key : Text
share_key = text "share.config"

unfoldable pub update_share_config : ℕ → ℕ → Json → List SystemSetting → List SystemSetting
update_share_config now id value settings =
    write_key now id share_key (text "系统分享内容配置") value settings

abbrev pub default_share_config : Json
default_share_config = Json.obj (
    Fields.field (text "content") (Json.str [])
      (Fields.field (text "url") (Json.str []) Fields.no_fields))

unfoldable pub get_share_config : List SystemSetting → Json
unfolding get_setting
get_share_config settings = value_or default_share_config (get_setting share_key settings)

abbrev pub ip_whitelist_key : Text
ip_whitelist_key = text "security.ipWhitelist"

unfoldable pub update_ip_whitelist : ℕ → ℕ → Json → List SystemSetting → List SystemSetting
update_ip_whitelist now id value settings =
    write_key now id ip_whitelist_key (text "IP 白名单配置") value settings

abbrev pub default_ip_whitelist : Json
default_ip_whitelist = Json.obj (
    Fields.field (text "ips") (Json.arr Items.no_items) (
      Fields.field (text "enabled") (Json.flag false)
        (Fields.field (text "description") (Json.str []) Fields.no_fields)))

unfoldable pub get_ip_whitelist : List SystemSetting → Json
unfolding get_setting
get_ip_whitelist settings = value_or default_ip_whitelist (get_setting ip_whitelist_key settings)

abbrev pub deposit_notice_key : Text
deposit_notice_key = text "deposit.notice"

-- `{ ...config, updatedAt }`, which replaces a field of that name.
abbrev pub with_field : Text → Json → Fields → Fields
with_field k v Fields.no_fields = Fields.field k v Fields.no_fields
with_field k v (Fields.field j w fs) =
    let rest = with_field k v fs in
    if text_eq j k then Fields.field k v fs else Fields.field j w rest

-- `time` is the text of the time.
unfoldable pub update_deposit_notice :
    ℕ → ℕ → Text → Fields → List SystemSetting → List SystemSetting
update_deposit_notice now id time config settings =
    write_key now id deposit_notice_key (text "入金地址说明公告配置")
      (Json.obj (with_field (text "updatedAt") (Json.str time) config)) settings

abbrev pub default_deposit_notice : Json
default_deposit_notice = Json.obj (
    Fields.field (text "enabled") (Json.flag false) (
      Fields.field (text "title") (Json.str [])
        (Fields.field (text "content") (Json.str []) Fields.no_fields)))

unfoldable pub get_deposit_notice : List SystemSetting → Json
unfolding get_setting
get_deposit_notice settings =
    value_or default_deposit_notice (get_setting deposit_notice_key settings)

pub record UpdateAdminAccountDto : Type 0 where
  pub username : Text
  pub password : Text
  pub display_name : Option Text

-- `findFirst({ orderBy: { createdAt: 'asc' } })`
abbrev pub created_before : Admin → Admin → Bool
created_before a b = ltb a.created_at b.created_at

abbrev pub first_admin : List Admin → Option Admin
first_admin admins = elim (sort_by created_before admins) [ [] ↦ none | a ∷ rest ↦ some a ]

-- `existingAdmin && existingAdmin.username !== dto.username`
abbrev pub is_other : Text → Option Admin → Bool
is_other name none = false
is_other name (some a) = not (text_eq a.username name)

-- The table's usernames are unique: a write that would repeat one throws.
unfoldable pub update_admin_account :
    Bcrypt → ℕ → UpdateAdminAccountDto → List Admin → Result SettingsError (List Admin)
update_admin_account b salt dto admins = do
  throw_if (is_other dto.username (find? (has_username dto.username) admins))
      SettingsError.username_exists
  a ← or_throw (first_admin admins) SettingsError.admin_not_found
  throw_if (any (λ x. has_username dto.username x && not (x.id == a.id)) admins)
      SettingsError.username_not_unique
  ok (
      update admin_key a.id
        (λ x. record x {
          username = dto.username;
          password_hash = b.hash salt dto.password;
          display_name = get_or (filled dto.display_name) a.display_name;
        })
        admins)
