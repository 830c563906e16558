-- ===== src/Backup.antt =====
-- The Zigbee coordinator's backup (smart-home-agent/internal/backup/backup.go) and the agent's run of
-- it (smart-home-agent/internal/agent/agent.go: `runBackup`, `fetchZigbeeCoordinatorBackup` and the
-- delivery of a response). The decoders of JSON, base64 and zip and `path.Base` are parameters.
use Prim.Native.String.{◌++◌}
use smart_home_edge.Prelude.{
  String, Bool, false, not, ◌&&◌, ◌||◌, Option, none, some, List, [], ◌∷◌, ◌==◌, if◌then◌else◌,
}
use smart_home_edge.Provision.{Credentials, Cloud, Disk, Settings, upload_backup}
use smart_home_edge.Provision

abbrev pub coordinator_format : String
coordinator_format = "z2m-coordinator-backup"

abbrev pub coordinator_backup_file : String
coordinator_backup_file = "coordinator_backup.json"

unfoldable pub request_topic : String → String
request_topic base = base ++ "/bridge/request/backup"

unfoldable pub response_topic : String → String
response_topic base = base ++ "/bridge/response/backup"

pub data Failure : Type 0 where
  undecodable : Failure
  refused : (message : String) → Failure
  no_data : Failure
  bad_base64 bad_zip : Failure
  unopened unread : Failure
  not_found : Failure
  request_failed cancelled timed_out : Failure

pub data Fetched : Type 0 where
  fetched : String → Fetched
  failed : Failure → Fetched

pub record Response : Type 0 where
  pub status : String
  pub error : String
  pub backup : String

-- A file of the archive; `opened` is `none` where it cannot be opened, and its content where it
-- cannot be read.
pub record ZipFile : Type 0 where
  pub name : String
  pub opened : Option (Option String)

pub record Formats : Type 0 where
  pub decode_response : String → Option Response
  pub base64 : String → Option String
  pub unzip : String → Option (List ZipFile)
  pub path_base : String → String

abbrev pub content_of : Option (Option String) → Fetched
content_of none = failed unopened
content_of (some none) = failed unread
content_of (some (some text)) = fetched text

module _ (formats : Formats) where
  -- The first file with the base name counts, whether it can be read or not.
  abbrev pub first_coordinator : List ZipFile → Fetched
  first_coordinator [] = failed not_found
  first_coordinator (f ∷ rest) =
      let later = first_coordinator rest in
      if not (formats.path_base f.name == coordinator_backup_file)
      then later
      else content_of f.opened

  unfoldable pub extract_coordinator_backup : String → Fetched
  extract_coordinator_backup zip_bytes = elim (formats.unzip zip_bytes) [
    | none ↦ failed bad_zip
    | some files ↦ first_coordinator files
  ]

  abbrev pub backup_of : Response → Fetched
  backup_of resp =
      if not (resp.status == "") && not (resp.status == "ok")
      then failed (refused (if resp.error == "" then resp.status else resp.error))
      else if resp.backup == ""
      then failed no_data
      else elim (formats.base64 resp.backup) [
        | none ↦ failed bad_base64
        | some zip_bytes ↦ extract_coordinator_backup zip_bytes
      ]

  unfoldable pub coordinator_backup_from_response : String → Fetched
  unfolding extract_coordinator_backup
  coordinator_backup_from_response raw = elim (formats.decode_response raw) [
    | none ↦ failed undecodable
    | some resp ↦ backup_of resp
  ]

-- The run of a backup, from its start to the upload, beside the deliveries of the local broker.
pub record Runner : Type 0 where
  pub claimed : Bool
  -- whether there is a client of the local broker
  pub local_mqtt : Bool
  pub inflight : Bool
  -- the channel of one response
  pub response : Option String
  -- what was shipped, newest first
  pub shipped : List String

pub data Ending : Type 0 where
  answered context_done out_of_time : Ending

-- The newest response replaces one that nobody took.
unfoldable pub deliver_backup : String → Runner → Runner
deliver_backup raw r = record r { response = some raw }

-- `published` says whether the request reached the local broker.
unfoldable pub begin_backup : (published : Bool) → Runner → Runner
begin_backup published r =
    if not r.claimed || not r.local_mqtt
    then r
    else if r.inflight
    then r
    else record r { inflight = published; response = none }

abbrev pub shipped_with : Provision.Result (Unit {0}) → String → Runner → Runner
shipped_with (Provision.ok _) text r = record r { inflight = false; shipped = text ∷ r.shipped }
shipped_with (Provision.err e) text r = record r { inflight = false }

module _ (formats : Formats) (cloud : Cloud) (disk : Disk) where
  abbrev pub upload : Fetched → Runner → Runner
  upload (fetched text) r = shipped_with (upload_backup cloud disk coordinator_format text) text r
  upload (failed e) r = record r { inflight = false }

  abbrev pub taken : Option String → Runner → Runner
  taken none r = r
  taken (some raw) r =
      upload (coordinator_backup_from_response formats raw) (record r { response = none })

  -- Where there is no response yet, the run goes on waiting.
  abbrev pub ended : Ending → Runner → Runner
  ended answered r = taken r.response r
  ended context_done r = record r { inflight = false }
  ended out_of_time r = record r { inflight = false }

  unfoldable pub finish_backup : Ending → Runner → Runner
  unfolding upload_backup coordinator_backup_from_response
  finish_backup ending r = if not r.inflight then r else ended ending r
