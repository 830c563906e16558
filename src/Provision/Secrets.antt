-- ===== src/Provision/Secrets.antt =====
-- The recovery secret is never lost, and what is stored is usable
-- (smart-home-agent/internal/provision/provision.go).
use smart_home_edge.Prelude.{
  ◌≡◌, refl, ap, ◌∙◌, inl, inr, Bool, true, false, not, ◌&&◌, Option, none, some, List, [], ◌∷◌,
  nat_eq, Bool-cases, if◌then◌else◌, ◌==◌,
}
use smart_home_edge.Provision.{
  Credentials, ProvisionResponse, ClaimCodeResponse, Metadata, Settings, Response, Result, ok, err,
  Cloud, Disk, is_usable, saved, token_of, carry_token, carry_code, credentials_of, kept_if_usable,
  decoded, recovered, provision_request, recover, recoded, reissued_with, token_request,
  reissue_claim_code,
}

unfoldable pub HasToken : Disk → Type 0
HasToken disk = (token_of disk == "") ≡ false

-- The client's calls that may write the file, each with the cloud that it meets.
pub data Call : Type 0 where
  recovering : Settings → Metadata → Cloud → Call
  reissuing : Cloud → Call

abbrev pub perform : Disk → Call → Disk
perform disk (recovering settings meta cloud) = (recover settings meta cloud disk).0
perform disk (reissuing cloud) = (reissue_claim_code cloud disk).0

pub perform_all : Disk → List Call → Disk
perform_all disk [] = disk
perform_all disk (c ∷ cs) = perform_all (perform disk c) cs

saved-HasToken :
    (cloud : Cloud) (disk : Disk) (c : Credentials)
    → HasToken disk
    → (c.provision_token == "") ≡ false
    → HasToken (saved cloud disk c).0
unfolding HasToken
saved-HasToken cloud disk c h k = elim (Bool-cases cloud.save_ok) [
  | inl t ↦ rw t k
  | inr f ↦ rw f h
]

if_HasToken :
    (t : Bool) (x y : Disk × Result Credentials)
    → HasToken x.0
    → HasToken y.0
    → HasToken (if t then x else y).0
if_HasToken true x y h k = h
if_HasToken false x y h k = k

token-carry_token :
    (old c : Credentials)
    → (old.provision_token == "") ≡ false
    → ((carry_token (some old) c).provision_token == "") ≡ false
token-carry_token old c h = elim (Bool-cases (c.provision_token == "")) [
  | inl t ↦ rw t h
  | inr f ↦ rw f f
]

token-carry_code :
    (disk : Disk) (c : Credentials) → (carry_code disk c).provision_token ≡ c.provision_token
token-carry_code none c = refl
token-carry_code (some old) c =
    elim (Bool-cases ((c.claim_code == "") && not (c.claim_status == "claimed"))) [
      | inl t ↦ rw t refl
      | inr f ↦ rw f refl
    ]

recovered-HasToken :
    (settings : Settings) (cloud : Cloud) (old : Credentials) (r : Option Response)
    → HasToken (some old)
    → HasToken (recovered settings cloud (some old) r).0
unfolding HasToken
recovered-HasToken settings cloud old none h = h
recovered-HasToken settings cloud old (some r) h =
    if_HasToken (not (nat_eq r.status 201) && not (nat_eq r.status 200)) _ _ h (read r.provisioned)
  where
    read : (o : Option ProvisionResponse) → HasToken (decoded settings cloud (some old) o).0
    read none = h
    read (some p) =
        let c = carry_token (some old) (credentials_of settings cloud p) in
        if_HasToken (is_usable (carry_code (some old) c)) _ _
          (saved-HasToken cloud (some old) (carry_code (some old) c) h (
            ap (λ t. t == "") (token-carry_code (some old) c)
            ∙ token-carry_token old (credentials_of settings cloud p) h))
          h

reissued-HasToken :
    (cloud : Cloud) (old : Credentials) (r : Option Response)
    → HasToken (some old)
    → HasToken (reissued_with cloud old r).0
unfolding HasToken
reissued-HasToken cloud old none h = h
reissued-HasToken cloud old (some r) h =
    if_HasToken (not (nat_eq r.status 200)) _ _ h (read r.reissued)
  where
    read : (o : Option ClaimCodeResponse) → HasToken (recoded cloud old o).0
    read none = h
    read (some c) = saved-HasToken cloud (some old) _ h h

perform-HasToken : (disk : Disk) (c : Call) → HasToken disk → HasToken (perform disk c)
unfolding recover reissue_claim_code HasToken
perform-HasToken none c h = absurd (cc h)
perform-HasToken (some old) (recovering settings meta cloud) h =
    if_HasToken (settings.cloud_base_url == "") _ _ h (
      recovered-HasToken settings cloud old
        (cloud.answer (provision_request settings meta (some old))) h)
perform-HasToken (some old) (reissuing cloud) h = if_HasToken (old.provision_token == "") _ _ h (
    reissued-HasToken cloud old
      (cloud.answer (token_request "/api/v1/provisioning/gateways/claim-code" old [])) h)

-- Once the file holds a provision token it holds one forever: whatever recoveries and reissues
-- follow, and whatever the cloud answers to them, no call blanks the recovery secret.
pub perform_all-HasToken :
    (disk : Disk) (cs : List Call) → HasToken disk → HasToken (perform_all disk cs)
unfolding perform_all
perform_all-HasToken disk [] h = h
perform_all-HasToken disk (c ∷ cs) h =
    perform_all-HasToken (perform disk c) cs (perform-HasToken disk c h)

-- A call that succeeds has stored what it returns, and that is usable; one that fails has left the
-- file as it was.
unfoldable pub Outcome : Disk → Disk × Result Credentials → Type 0
Outcome disk (after, ok c) = (after ≡ some c) × (is_usable c ≡ true)
Outcome disk (after, err e) = after ≡ disk

-- A recovery that succeeds has stored the credentials that it returns, and they are usable; one
-- that fails, for whatever reason, leaves the stored credentials as they were.
pub recover-Outcome :
    (settings : Settings) (meta : Metadata) (cloud : Cloud) (disk : Disk)
    → Outcome disk (recover settings meta cloud disk)
unfolding recover Outcome
recover-Outcome settings meta cloud disk =
    if_Outcome (settings.cloud_base_url == "") _ _ refl
      (answered (cloud.answer (provision_request settings meta disk)))
  where
    if_Outcome :
        (t : Bool) (x y : Disk × Result Credentials)
        → Outcome disk x
        → Outcome disk y
        → Outcome disk (if t then x else y)
    if_Outcome true x y h k = h
    if_Outcome false x y h k = k

    stored : (c : Credentials) → Outcome disk (kept_if_usable cloud disk c)
    stored c = elim (Bool-cases (is_usable c)) [
      | inl good ↦ elim (Bool-cases cloud.save_ok) [
        | inl written ↦ rw (good, written) (refl, good)
        | inr failed ↦ rw (good, failed) refl
      ]
      | inr bad ↦ rw bad refl
    ]

    read : (o : Option ProvisionResponse) → Outcome disk (decoded settings cloud disk o)
    read none = refl
    read (some p) = stored (carry_code disk (carry_token disk (credentials_of settings cloud p)))

    answered : (o : Option Response) → Outcome disk (recovered settings cloud disk o)
    answered none = refl
    answered (some r) =
        if_Outcome (not (nat_eq r.status 201) && not (nat_eq r.status 200)) _ _ refl
          (read r.provisioned)

-- What a reissue may leave: on a success the stored credentials with another claim code and expiry,
-- as returned; otherwise the stored credentials.
unfoldable pub Reissued : Credentials → Disk × Result Credentials → Type 0
Reissued old (after, ok c) =
    (after ≡ some c)
    × (record old { claim_code = c.claim_code; claim_code_expires_at = c.claim_code_expires_at }
        ≡ c)
Reissued old (after, err e) = after ≡ some old

-- A reissue of the claim code changes nothing but the code and its expiry, in what it stores and in
-- what it returns, and a reissue that fails changes nothing at all; the broker's secrets stay.
pub reissue_claim_code-Reissued :
    (cloud : Cloud) (old : Credentials) → Reissued old (reissue_claim_code cloud (some old))
unfolding reissue_claim_code Reissued
reissue_claim_code-Reissued cloud old =
    if_Reissued (old.provision_token == "") _ _ refl
      (answered (cloud.answer (token_request "/api/v1/provisioning/gateways/claim-code" old [])))
  where
    if_Reissued :
        (t : Bool) (x y : Disk × Result Credentials)
        → Reissued old x
        → Reissued old y
        → Reissued old (if t then x else y)
    if_Reissued true x y h k = h
    if_Reissued false x y h k = k

    read : (o : Option ClaimCodeResponse) → Reissued old (recoded cloud old o)
    read none = refl
    read (some r) = if_Reissued cloud.save_ok _ _ (refl, refl) refl

    answered : (o : Option Response) → Reissued old (reissued_with cloud old o)
    answered none = refl
    answered (some r) = if_Reissued (not (nat_eq r.status 200)) _ _ refl (read r.reissued)
