-- ===== src/Access/Frontend.antt =====
-- `FrontendIpWhitelistService`. What Node's `net.isIP` and `Number` say of a text is a parameter; whether
-- the file is written and the server reloads are arguments.
use crypto_sim_backend.Common.{
  ℕ, pos, negsuc, leb, ◌==◌, if◌then◌else◌, Bool, true, false, ◌&&◌, List, [], ◌∷◌, ◌++◌, map, any,
  find?, Option, none, some, Text, text, text_eq, trim, Result, ok, err, ◌>>=◌, ◌>>◌, throw_if,
}
use crypto_sim_backend.Database.{NumberValue}
use crypto_sim_backend.Support.Csv.{join}
use crypto_sim_backend.Settings.Service.{Json, Items, Fields, SystemSetting, has_key}

pub record Net : Type 0 where
  pub is_ip : Text → ℕ
  pub number_of : Text → NumberValue

pub data AccessError : Type 0 where
  empty_list write_failed reload_failed : AccessError
  invalid_ip : Text → AccessError

pub record UpdateFrontendIpWhitelistDto : Type 0 where
  pub enabled : Bool
  pub ips : List Text

-- The settings, and the file that the web server includes.
pub record Site : Type 0 where
  pub settings : List SystemSetting
  pub conf : Text

-- `value.split('/')`: the first part, and what stands behind the first slash.
abbrev pub before_slash : Text → Text
before_slash [] = []
before_slash (c ∷ s) = if c == b'/' then [] else c ∷ before_slash s

abbrev pub behind_slash : Text → Option Text
behind_slash [] = none
behind_slash (c ∷ s) = if c == b'/' then some s else behind_slash s

abbrev pub is_empty : Text → Bool
is_empty [] = true
is_empty (c ∷ s) = false

-- `Number.isInteger(n)` and the bounds of the length of a prefix.
abbrev pub fits_prefix : ℕ → NumberValue → Bool
fits_prefix kind (NumberValue.whole (pos n)) = if kind == 4 then leb n 32 else leb n 128
fits_prefix kind (NumberValue.whole (negsuc n)) = false
fits_prefix kind NumberValue.not_whole = false

-- `cidr` is the second part, up to the next slash.
abbrev pub check_cidr : Net → ℕ → Option Text → Bool
check_cidr net kind none = true
check_cidr net kind (some s) = fits_prefix kind (net.number_of (before_slash s))

unfoldable pub is_valid_ip_or_cidr : Net → Text → Bool
is_valid_ip_or_cidr net value =
    let ip = before_slash value in
    if is_empty ip
    then false
    else (if net.is_ip ip == 0 then false else check_cidr net (net.is_ip ip) (behind_slash value))

-- The loop, with the values seen so far.
unfoldable pub normalize_from : Net → List Text → List Text → Result AccessError (List Text)
unfolding is_valid_ip_or_cidr
normalize_from net seen [] = ok []
normalize_from net seen (raw ∷ raws) =
    let value = trim raw in
    let without = normalize_from net seen raws in
    let with_it = normalize_from net (value ∷ seen) raws >>= λ rest. ok (value ∷ rest) in
    if is_empty value
    then without
    else (if any (text_eq value) seen
        then without
        else (if is_valid_ip_or_cidr net value
            then with_it
            else err (AccessError.invalid_ip value)))

unfoldable pub normalize_ips : Net → List Text → Result AccessError (List Text)
unfolding normalize_from
normalize_ips net raws = normalize_from net [] raws

abbrev pub setting_key : Text
setting_key = text "frontend.ipWhitelist"

abbrev pub items_of : List Text → Items
items_of [] = Items.no_items
items_of (ip ∷ ips) = Items.item (Json.str ip) (items_of ips)

abbrev pub stored_value : Bool → List Text → Json
stored_value enabled ips = Json.obj (
    Fields.field (text "enabled") (Json.flag enabled)
      (Fields.field (text "ips") (Json.arr (items_of ips)) Fields.no_fields))

abbrev pub upsert_whitelist : ℕ → ℕ → Json → List SystemSetting → List SystemSetting
upsert_whitelist now id value [] =
    record {
      id = id;
      key = setting_key;
      value = value;
      category = text "frontend";
      description = some (text "前端站点 nginx 层 IP 白名单");
      created_at = now;
      updated_at = now;
    }
    ∷ []
upsert_whitelist now id value (s ∷ ss) =
    let rest = upsert_whitelist now id value ss in
    if has_key setting_key s then (record s { value = value; updated_at = now }) ∷ ss else s ∷ rest

abbrev pub allow_line : Text → Text
allow_line ip = text "allow " ++ (ip ++ text ";")

-- The content of the file.
unfoldable pub nginx_conf : Bool → List Text → Text
nginx_conf false ips = text "# IP 白名单未启用" ++ (10 ∷ [])
nginx_conf true [] = text "# IP 白名单未启用" ++ (10 ∷ [])
nginx_conf true (ip ∷ ips) =
    text "# 由后台 API 自动生成，请勿手动修改"
    ++ (10 ∷ (join (10 ∷ []) (map allow_line (ip ∷ ips) ++ (text "deny all;" ∷ [])) ++ (10 ∷ [])))

-- The setting is stored before the file is written, and stays where that fails.
abbrev pub write_and_reload :
    Bool → Bool → Bool → List Text → Site → Site × Result AccessError (List Text)
write_and_reload false reloads enabled ips site = (site, err AccessError.write_failed)
write_and_reload true false enabled ips site =
    (record site { conf = nginx_conf enabled ips }, err AccessError.reload_failed)
write_and_reload true true enabled ips site =
    (record site { conf = nginx_conf enabled ips }, ok ips)

abbrev pub check_list : Net → UpdateFrontendIpWhitelistDto → Result AccessError (List Text)
check_list net dto = do
  ips ← normalize_ips net dto.ips
  throw_if (dto.enabled && elim ips [ [] ↦ true | ip ∷ rest ↦ false ]) AccessError.empty_list
  ok ips

unfoldable pub update_whitelist :
    Net
    → Bool
    → Bool
    → ℕ
    → ℕ
    → UpdateFrontendIpWhitelistDto
    → Site
    → Site × Result AccessError (List Text)
unfolding nginx_conf normalize_ips
update_whitelist net writes reloads now id dto site = elim (check_list net dto) [
  | err e ↦ (site, err e)
  | ok ips ↦ write_and_reload writes reloads dto.enabled ips (record site {
    settings = upsert_whitelist now id (stored_value dto.enabled ips) site.settings;
  })
]

-- `value?.enabled ?? false` and `Array.isArray(value?.ips) ? value.ips : []`, at the fields of the value.
abbrev pub field_of : Text → Fields → Option Json
field_of k Fields.no_fields = none
field_of k (Fields.field j v fs) = if text_eq j k then some v else field_of k fs

abbrev pub fields_of : Json → Fields
fields_of (Json.obj fs) = fs
fields_of _ = Fields.no_fields

abbrev pub list_of : Option Json → Items
list_of (some (Json.arr xs)) = xs
list_of _ = Items.no_items

abbrev pub or_false : Option Json → Json
or_false none = Json.flag false
or_false (some Json.null) = Json.flag false
or_false (some v) = v

abbrev pub read_whitelist : Option SystemSetting → Json × Items
read_whitelist none = (Json.flag false, Items.no_items)
read_whitelist (some s) = (
  or_false (field_of (text "enabled") (fields_of s.value)),
  list_of (field_of (text "ips") (fields_of s.value)),
)

unfoldable pub find_one : Site → Json × Items
find_one site = read_whitelist (find? (has_key setting_key) site.settings)
