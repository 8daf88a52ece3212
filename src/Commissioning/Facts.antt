-- ===== src/Commissioning/Facts.antt =====
-- The facts about a site (api/commissioning/evaluate.ts) as queries over the rows of the tables.
-- Times are milliseconds; a column that no query reads is left out.
pub mod Evidence
use Prim.Native.Char.{code}
use gateway_monitoring_platf.Prelude.{
  ℕ, ◌+◌, ◌-◌, String, Option, none, some, Bool, true, false, not, ◌&&◌, ◌||◌, List, [], ◌∷◌, leb,
  ◌==◌, if◌then◌else◌, length, filter, find, map, str_eq,
}
use gateway_monitoring_platf.Commissioning.Checklist.{SiteFacts, StepResult, evaluate_checklist}

abbrev pub fresh_ms : ℕ
fresh_ms = 900000

pub data VerificationStatus : Type 0 where
  draft bench_verified field_verified : VerificationStatus

pub record SiteRow : Type 0 where
  pub id : ℕ
  pub name : String
  pub timezone : Option String
  pub org_id : Option ℕ

pub record GatewayRow : Type 0 where
  pub id : ℕ
  pub site_id : Option ℕ
  pub status : String
  pub last_seen_at : Option ℕ

pub record DeviceRow : Type 0 where
  pub id : ℕ
  pub gateway_id : ℕ
  pub site_id : Option ℕ
  pub model : String
  pub device_type : String
  pub last_seen_at : Option ℕ

pub record ProfileRow : Type 0 where
  pub model : String
  pub verification_status : VerificationStatus

pub record RuleRow : Type 0 where
  pub enabled : Bool
  pub org_id : Option ℕ
  pub meter_id : Option ℕ

pub record ChannelRow : Type 0 where
  pub enabled : ℕ
  pub org_id : Option ℕ

-- The primary key is the meter; `nameplate_kwh` only counts by being there.
pub record HealthRow : Type 0 where
  pub meter_id : ℕ
  pub nameplate_kwh : Option ℕ

pub record CommandRow : Type 0 where
  pub kind : String
  pub status : String
  pub meter_id : Option ℕ

pub record SignoffRow : Type 0 where
  pub site_id : ℕ
  pub signed_by_name : String
  pub note : Option String

pub record Tables : Type 0 where
  pub sites : List SiteRow
  pub gateways : List GatewayRow
  pub meters : List DeviceRow
  pub device_profiles : List ProfileRow
  pub alarm_rules : List RuleRow
  pub notification_channels : List ChannelRow
  pub battery_health : List HealthRow
  pub commands : List CommandRow
  pub commissioning_signoffs : List SignoffRow

-- eq(column, value), where null equals nothing.
abbrev pub is_value : Option ℕ → ℕ → Bool
is_value none n = false
is_value (some m) n = m == n

-- inArray(column, values)
unfoldable pub is_among : List ℕ → ℕ → Bool
is_among [] n = false
is_among (m ∷ ms) n = m == n || is_among ms n

abbrev pub is_null_or_among : List ℕ → Option ℕ → Bool
is_null_or_among ms none = true
is_null_or_among ms (some n) = is_among ms n

abbrev pub is_value_among : List ℕ → Option ℕ → Bool
is_value_among ms none = false
is_value_among ms (some n) = is_among ms n

-- lastSeenAt !== null && lastSeenAt >= freshCutoff, where an early cutoff is zero.
abbrev pub is_fresh : ℕ → Option ℕ → Bool
is_fresh now none = false
is_fresh now (some at) = leb (now - fresh_ms) at

unfoldable pub gateway_rows : Tables → ℕ → List GatewayRow
gateway_rows db site_id = filter (λ g. is_value g.site_id site_id) db.gateways

abbrev pub is_online : ℕ → GatewayRow → Bool
is_online now g = str_eq g.status "online" && is_fresh now g.last_seen_at

-- A device's own binding, else its gateway's.
abbrev pub inherits_site : List ℕ → DeviceRow → Bool
inherits_site gateway_ids m = is_null_or_among [] m.site_id && is_among gateway_ids m.gateway_id

unfoldable pub device_rows : Tables → ℕ → List DeviceRow
device_rows db site_id =
    let gateway_ids = map (λ g. g.id) (gateway_rows db site_id) in
    if length gateway_ids == 0
    then filter (λ m. is_value m.site_id site_id) db.meters
    else filter (λ m. is_value m.site_id site_id || inherits_site gateway_ids m) db.meters

-- byModel.get(model): of several rows the last one stands in the map.
unfoldable pub profile_of : String → List ProfileRow → Option VerificationStatus
profile_of model [] = none
profile_of model (p ∷ rows) = elim (profile_of model rows) [
  | some v ↦ some v
  | none ↦ if str_eq p.model model then some p.verification_status else none
]

abbrev pub is_missing : Option VerificationStatus → Bool
is_missing none = true
is_missing (some v) = false

abbrev pub is_draft : Option VerificationStatus → Bool
is_draft (some draft) = true
is_draft _ = false

-- Rows of the site's organization and global ones.
abbrev pub in_org : Option ℕ → Option ℕ → Bool
in_org none none = true
in_org none (some r) = false
in_org (some o) none = true
in_org (some o) (some r) = r == o

unfoldable pub rule_rows : Tables → SiteRow → List ℕ → List RuleRow
rule_rows db site device_ids =
    filter (λ r. r.enabled && in_org site.org_id r.org_id && is_null_or_among device_ids r.meter_id)
      db.alarm_rules

unfoldable pub channel_rows : Tables → SiteRow → List ChannelRow
channel_rows db site =
    filter (λ c. c.enabled == 1 && in_org site.org_id c.org_id) db.notification_channels

abbrev pub is_bess : DeviceRow → Bool
is_bess d = str_eq d.device_type "bess"

abbrev pub has_nameplate : HealthRow → Bool
has_nameplate r = elim (r.nameplate_kwh) [ none ↦ false | some kwh ↦ true ]

unfoldable pub nameplate_rows : Tables → List DeviceRow → List HealthRow
nameplate_rows db bess = filter (λ r. is_among (map (λ b. b.id) bess) r.meter_id) db.battery_health

unfoldable pub proven_rows : Tables → List ℕ → List CommandRow
proven_rows db device_ids =
    filter
      (λ c. str_eq c.kind "control" && str_eq c.status "ok" && is_value_among device_ids c.meter_id)
      db.commands

-- The white space and line ends that String.prototype.trim removes.
unfoldable pub is_space : ℕ → Bool
is_space c =
    (leb 9 c && leb c 13)
    || c == 32
    || c == 160
    || c == 5760
    || (leb 8192 c && leb c 8202)
    || c == 8232
    || c == 8233
    || c == 8239
    || c == 8287
    || c == 12288
    || c == 65279

unfoldable pub is_blank : String → Bool
unfolding is_space
is_blank String.[] = true
is_blank (String.◌∷◌ c s) = is_space (code c) && is_blank s

-- Boolean(timezone && timezone.trim().length > 0)
abbrev pub is_set : Option String → Bool
is_set none = false
is_set (some s) = not (is_blank s)

abbrev pub signer : Option SignoffRow → Option String
signer none = none
signer (some s) = some s.signed_by_name

abbrev pub note_of : Option SignoffRow → Option String
note_of none = none
note_of (some s) = s.note

-- siteFacts from the rows of the site on.
unfoldable pub facts_of : Tables → ℕ → SiteRow → SiteFacts
unfolding gateway_rows device_rows profile_of rule_rows channel_rows nameplate_rows proven_rows
    is_blank
facts_of db now site =
    let gateways = gateway_rows db site.id in
    let devices = device_rows db site.id in
    let device_ids = map (λ d. d.id) devices in
    let bess = filter is_bess devices in
    let signoff = find (λ s. s.site_id == site.id) db.commissioning_signoffs in
    record {
      site_name = site.name;
      has_timezone = is_set site.timezone;
      gateway_count = length gateways;
      gateways_online = length (filter (is_online now) gateways);
      device_count = length devices;
      devices_reporting = length (filter (λ d. is_fresh now d.last_seen_at) devices);
      devices_with_draft_profile =
          length (filter (λ d. is_draft (profile_of d.model db.device_profiles)) devices);
      devices_without_profile =
          length (filter (λ d. is_missing (profile_of d.model db.device_profiles)) devices);
      enabled_rules_covering = length (rule_rows db site device_ids);
      enabled_channels = length (channel_rows db site);
      bess_count = length bess;
      bess_with_nameplate = length (filter has_nameplate (nameplate_rows db bess));
      proven_control_writes = length (proven_rows db device_ids);
      handover_signed_by = signer signoff;
      handover_note = note_of signoff;
    }

unfoldable pub site_facts : Tables → ℕ → ℕ → Option SiteFacts
site_facts db now site_id = elim (find (λ s. s.id == site_id) db.sites) [
  | none ↦ none
  | some site ↦ some (facts_of db now site)
]

unfoldable pub site_checklist : Tables → ℕ → ℕ → Option (SiteFacts × List StepResult)
site_checklist db now site_id = elim (site_facts db now site_id) [
  | none ↦ none
  | some facts ↦ some (facts, evaluate_checklist facts)
]
