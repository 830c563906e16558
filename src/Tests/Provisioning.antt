-- ===== src/Tests/Provisioning.antt =====
-- The provisioning client against a cloud that rotates the password and does not resend the token.
use smart_home_edge.Prelude.{
  ◌≡◌, refl, true, false, some, [], ◌∷◌, pos, ℕ, zero, suc, ◌<◌, ◌≤◌, All, arith,
}
use smart_home_edge.Provision.{
  Credentials, Metadata, Settings, Cloud, ok, is_usable, recover, reissue_claim_code, not_persisted,
}
use smart_home_edge.Provision.Retry.{
  Future, provision_with_retry, provisioned, Fails, provision_with_retry_returns,
  provision_with_retry_bounded,
}
use smart_home_edge.Provision.Secrets.{
  HasToken, recovering, reissuing, perform_all, perform_all-HasToken, Outcome, recover-Outcome,
  Reissued, reissue_claim_code-Reissued,
}

abbrev pub stored : Credentials
stored = record {
  uid = "u1";
  topic_namespace = "homes/u1";
  claim_status = "unclaimed";
  mqtt_username = "gw";
  mqtt_password = "old";
  provision_token = "t1";
  claim_code = "ABCD";
  claim_code_expires_at = "";
  serial = "s1";
  provisioned_at = pos 0;
}

abbrev pub rotating : Cloud
rotating = record {
  answer = λ r. some (record {
    status = 200;
    code = "";
    message = "";
    provisioned = some (record {
      uid = "u1";
      topic_namespace = "homes/u1";
      claim_status = "unclaimed";
      username = "gw";
      password = "new";
      provision_token = "";
      claim_code = "";
      claim_code_expires_at = "";
    });
    reissued = some (record { claim_code = "WXYZ"; claim_code_expires_at = "" });
  });
  now = pos 0;
  save_ok = true;
  base64 = λ s. s;
}

abbrev pub settings : Settings
settings = record { cloud_base_url = "https://cloud"; serial = "s1"; factory_key = "" }

abbrev meta : Metadata
meta = record { ha_version = ""; agent_version = "1"; os_version = "" }

-- The password is new; the token and the claim code are carried over.
rotated :
    (recover settings meta rotating (some stored)).1 ≡ ok (record stored { mqtt_password = "new" })
unfolding recover is_usable
rotated = refl

perform_all-HasToken_example :
    HasToken
      (perform_all (some stored) (recovering settings meta rotating ∷ reissuing rotating ∷ []))
unfolding HasToken
perform_all-HasToken_example =
    perform_all-HasToken (some stored) (recovering settings meta rotating ∷ reissuing rotating ∷ [])
      refl

recover-Outcome_example : Outcome (some stored) (recover settings meta rotating (some stored))
recover-Outcome_example = recover-Outcome settings meta rotating (some stored)

reissue_claim_code-Reissued_example : Reissued stored (reissue_claim_code rotating (some stored))
reissue_claim_code-Reissued_example = reissue_claim_code-Reissued rotating stored

-- The first attempt meets a file that cannot be written, the second is accepted.
abbrev second_accepted : Future
second_accepted = record {
  cloud = λ k. elim k [ zero ↦ record rotating { save_ok = false } | suc n ↦ rotating ];
  gives_up = λ k. false;
}

first-Fails : (k : ℕ) → k < 1 → Fails settings meta second_accepted (some stored) k
unfolding Fails recover is_usable
first-Fails zero small = (not_persisted, refl, refl)
first-Fails (suc k) small = absurd (omega arith)

provision_with_retry_returns_example :
    ((provision_with_retry 2 settings meta second_accepted 2000000000 (some stored)).0
      ≡ some (record stored { mqtt_password = "new" }))
    × ((provision_with_retry 2 settings meta second_accepted 2000000000 (some stored)).2
        ≡ some (provisioned (record stored { mqtt_password = "new" })))
unfolding recover is_usable
provision_with_retry_returns_example =
    provision_with_retry_returns 1 settings meta second_accepted 2000000000 (some stored)
      (record stored { mqtt_password = "new" }) first-Fails refl

provision_with_retry_bounded_example :
    All
      (λ wait. wait ≤ 300000000000)
      (provision_with_retry 2 settings meta second_accepted 2000000000 (some stored)).1
provision_with_retry_bounded_example =
    provision_with_retry_bounded 2 settings meta second_accepted 2000000000 (some stored)
      (omega arith)
