-- ===== src/Provision.antt =====
-- The provisioning client and its credential store
-- (smart-home-agent/internal/provision/provision.go). The cloud's answer, the clock and whether the
-- file can be written are arguments of a call. Building a request and encoding a map of texts do
-- not fail. A JSON body is given decoded, `none` when it is not.
pub mod Secrets
pub mod Retry
use Prim.Native.String.{◌++◌}
use smart_home_edge.Prelude.{
  ℕ, String, Bool, true, false, not, ◌&&◌, ◌||◌, Option, none, some, List, [], ◌∷◌, ℤ, Dict, insert,
  ◌==◌, nat_eq, if◌then◌else◌, zero, suc, ltb, ◌*◌,
}

-- The file holds them; a missing or unreadable file is `none` where one is read.
pub record Credentials : Type 0 where
  pub uid : String
  pub topic_namespace : String
  pub claim_status : String
  pub mqtt_username : String
  pub mqtt_password : String
  pub provision_token : String
  pub claim_code : String
  pub claim_code_expires_at : String
  pub serial : String
  -- nanoseconds
  pub provisioned_at : ℤ

pub record ProvisionResponse : Type 0 where
  pub uid : String
  pub topic_namespace : String
  pub claim_status : String
  pub username : String
  pub password : String
  pub provision_token : String
  pub claim_code : String
  pub claim_code_expires_at : String

pub record ClaimCodeResponse : Type 0 where
  pub claim_code : String
  pub claim_code_expires_at : String

pub record Metadata : Type 0 where
  pub ha_version : String
  pub agent_version : String
  pub os_version : String

pub record Settings : Type 0 where
  pub cloud_base_url : String
  pub serial : String
  pub factory_key : String

pub record Request : Type 0 where
  pub path : String
  pub authorization : Option String
  pub fields : Dict String

-- `code` and `message` are what a rejection's body says, empty when it says nothing.
pub record Response : Type 0 where
  pub status : ℕ
  pub code : String
  pub message : String
  pub provisioned : Option ProvisionResponse
  pub reissued : Option ClaimCodeResponse

pub data Error : Type 0 where
  no_cloud_url no_token request_failed undecodable unusable not_persisted : Error
  rejected : (status : ℕ) → (code message : String) → Error

pub data Result (A : Type 0) : Type 0 where
  ok : A → Result A
  err : Error → Result A

-- `none` is a request that fails.
pub record Cloud : Type 0 where
  pub answer : Request → Option Response
  pub now : ℤ
  pub save_ok : Bool
  pub base64 : String → String

abbrev pub Disk : Type 0
Disk = Option Credentials

unfoldable pub needs_operator : String → Bool
needs_operator code =
    (code == "factory_key_required")
    || ((code == "recovery_not_authorized") || (code == "gateway_suspended"))

unfoldable pub is_usable : Credentials → Bool
is_usable c = not (c.uid == "") && (not (c.mqtt_username == "") && not (c.mqtt_password == ""))

-- `save`, a temporary file and a rename, and then the value that the caller returns.
abbrev pub saved : Cloud → Disk → Credentials → Disk × Result Credentials
saved cloud disk c = if cloud.save_ok then (some c, ok c) else (disk, err not_persisted)

abbrev pub add_field : String → String → Dict String → Dict String
add_field key value d = if value == "" then d else insert key value d

abbrev pub token_of : Disk → String
token_of none = ""
token_of (some c) = c.provision_token

-- The token that the cloud does not resend stays, and so does the code of an unclaimed unit.
abbrev pub carry_token : Disk → Credentials → Credentials
carry_token none c = c
carry_token (some old) c =
    if c.provision_token == "" then record c { provision_token = old.provision_token } else c

abbrev pub carry_code : Disk → Credentials → Credentials
carry_code none c = c
carry_code (some old) c =
    if (c.claim_code == "") && not (c.claim_status == "claimed")
    then record c { claim_code = old.claim_code; claim_code_expires_at = old.claim_code_expires_at }
    else c

abbrev pub credentials_of : Settings → Cloud → ProvisionResponse → Credentials
credentials_of settings cloud r = record {
  uid = r.uid;
  topic_namespace = r.topic_namespace;
  claim_status = r.claim_status;
  mqtt_username = r.username;
  mqtt_password = r.password;
  provision_token = r.provision_token;
  claim_code = r.claim_code;
  claim_code_expires_at = r.claim_code_expires_at;
  serial = settings.serial;
  provisioned_at = cloud.now;
}

abbrev pub kept_if_usable : Cloud → Disk → Credentials → Disk × Result Credentials
kept_if_usable cloud disk c = if is_usable c then saved cloud disk c else (disk, err unusable)

abbrev pub decoded : Settings → Cloud → Disk → Option ProvisionResponse → Disk × Result Credentials
decoded settings cloud disk none = (disk, err undecodable)
decoded settings cloud disk (some r) =
    kept_if_usable cloud disk (carry_code disk (carry_token disk (credentials_of settings cloud r)))

abbrev pub rejection : Response → Error
rejection r = rejected r.status r.code r.message

abbrev pub recovered : Settings → Cloud → Disk → Option Response → Disk × Result Credentials
recovered settings cloud disk none = (disk, err request_failed)
recovered settings cloud disk (some r) =
    if not (nat_eq r.status 201) && not (nat_eq r.status 200)
    then (disk, err (rejection r))
    else decoded settings cloud disk r.provisioned

abbrev pub provision_request : Settings → Metadata → Disk → Request
provision_request settings meta disk = record {
  path = "/api/v1/provisioning/gateways";
  authorization =
      if settings.factory_key == "" then none else some ("Bearer " ++ settings.factory_key);
  fields = add_field "os_version" meta.os_version (
      add_field "agent_version" meta.agent_version (
        add_field "ha_version" meta.ha_version
          (add_field "provision_token" (token_of disk) (("serial", settings.serial) ∷ []))));
}

unfoldable pub recover : Settings → Metadata → Cloud → Disk → Disk × Result Credentials
unfolding is_usable
recover settings meta cloud disk =
    if settings.cloud_base_url == ""
    then (disk, err no_cloud_url)
    else recovered settings cloud disk (cloud.answer (provision_request settings meta disk))

abbrev pub recoded : Cloud → Credentials → Option ClaimCodeResponse → Disk × Result Credentials
recoded cloud old none = (some old, err undecodable)
recoded cloud old (some r) =
    saved cloud (some old)
      (record old { claim_code = r.claim_code; claim_code_expires_at = r.claim_code_expires_at })

abbrev pub reissued_with : Cloud → Credentials → Option Response → Disk × Result Credentials
reissued_with cloud old none = (some old, err request_failed)
reissued_with cloud old (some r) =
    if not (nat_eq r.status 200)
    then (some old, err (rejection r))
    else recoded cloud old r.reissued

abbrev pub token_request : String → Credentials → Dict String → Request
token_request path old more = record {
  path = path;
  authorization = none;
  fields = ("serial", old.serial) ∷ ("provision_token", old.provision_token) ∷ more;
}

unfoldable pub reissue_claim_code : Cloud → Disk → Disk × Result Credentials
reissue_claim_code cloud none = (none, err no_token)
reissue_claim_code cloud (some old) =
    if old.provision_token == ""
    then (some old, err no_token)
    else reissued_with cloud old
        (cloud.answer (token_request "/api/v1/provisioning/gateways/claim-code" old []))

abbrev uploaded : Option Response → Result (Unit {0})
uploaded none = err request_failed
uploaded (some r) = if not (nat_eq r.status 200) then err (rejection r) else ok tt

unfoldable pub upload_backup : Cloud → Disk → (format data_bytes : String) → Result (Unit {0})
upload_backup cloud none format data_bytes = err no_token
upload_backup cloud (some old) format data_bytes =
    if old.provision_token == ""
    then err no_token
    else uploaded (
        cloud.answer (
          token_request "/api/v1/provisioning/gateways/backup" old
            (("format", format) ∷ ("data", cloud.base64 data_bytes) ∷ [])))
