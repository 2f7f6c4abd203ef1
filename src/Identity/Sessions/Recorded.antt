-- ===== src/Identity/Sessions/Recorded.antt =====
-- What the stored row of an attestation says: the verified claims, column by column.
use agent_identity_lab.Prelude.{
  ℕ, String, ◌≡◌, Option, none, some, Option-cases, inl, inr, get_or, lookup, replace_z, arith,
}
use agent_identity_lab.Json.{Json, Dict, str, as_str, get as get_value}
use agent_identity_lab.Common.{verified}
use agent_identity_lab.Models.{RuntimeAttestation}
use agent_identity_lab.Attestation.{Primitives, Moment, invalid, naive, aware}
use agent_identity_lab.Identity.Sessions.{
  SessionCreateRequest, column, column_or, instant, issued_at_of, attestation_row,
}

-- The row of the claims and the signature, verified at `t`; the model and the version of the
-- prompt are those of the request where the claims name none.
pub record IsRecorded (prims : Primitives) (body : SessionCreateRequest) (claims : Dict)
    (signature : Json) (t : ℕ) (a : RuntimeAttestation) : Type 0 where
  pub agent : a.agent_id ≡ body.agent_id
  pub container_digest : get_value "container_digest" claims ≡ str a.container_digest
  pub git_commit : get_value "git_commit" claims ≡ str a.git_commit
  pub environment : get_value "environment" claims ≡ str a.environment
  pub host_id : get_value "host_id" claims ≡ str a.host_id
  pub framework : get_value "framework" claims ≡ str a.framework
  pub framework_version : get_value "framework_version" claims ≡ str a.framework_version
  pub model : get_or (lookup "model" claims) (str body.model_id) ≡ str a.model_id
  pub prompt_version :
      get_or (lookup "prompt_version" claims) (str body.prompt_version) ≡ str a.prompt_version
  pub nonce : get_value "nonce" claims ≡ str a.nonce
  pub signed : signature ≡ str a.signature
  pub written : String
  pub dated : get_value "issued_at" claims ≡ str written
  pub issued_at : prims.from_iso (replace_z written) ≡ aware a.issued_at
  pub verified_at : a.verified_at ≡ some t
  pub result : a.verification_result ≡ some verified

as_str-str : (v : Json) (t : String) → as_str v ≡ some t → v ≡ str t
as_str-str (str s) t h = cc h
as_str-str _ t h = absurd (cc h)

column_or-str :
    (claim : String) (claims : Dict) (default t : String)
    → column_or claim claims default ≡ some t
    → get_or (lookup claim claims) (str default) ≡ str t
column_or-str claim claims default t h = go (lookup claim claims) h
  where
    go :
        (o : Option Json)
        → elim o [ none ↦ some default | some v ↦ as_str v ] ≡ some t
        → get_or o (str default) ≡ str t
    go none h = cc h
    go (some v) h = as_str-str v t h

instant-aware : (m : Moment) (t : ℕ) → instant m ≡ some t → m ≡ aware t
instant-aware (aware t) s h = cc h
instant-aware invalid s h = absurd (cc h)
instant-aware naive s h = absurd (cc h)

issued_at_of-aware :
    (prims : Primitives) (claims : Dict) (t : ℕ)
    → issued_at_of prims claims ≡ some t
    → (written : String) × (get_value "issued_at" claims ≡ str written)
      × (prims.from_iso (replace_z written) ≡ aware t)
unfolding issued_at_of
issued_at_of-aware prims claims t h = elim (Option-cases (column "issued_at" claims)) [
  | inl missing ↦ absurd (cc (rw missing at h))
  | inr (written, there) ↦ (written, as_str-str _ written there, instant-aware _ t (rw there at h))
]

-- What the columns of a row that was written hold.
columns :
    (prims : Primitives) (id : ℕ) (body : SessionCreateRequest) (claims : Dict) (signature : Json)
    (t : ℕ) (a : RuntimeAttestation)
    → attestation_row prims id body claims signature t ≡ some a
    → (a.agent_id ≡ body.agent_id)
      × (column "container_digest" claims ≡ some a.container_digest)
      × (column "git_commit" claims ≡ some a.git_commit)
      × (column "environment" claims ≡ some a.environment)
      × (column "host_id" claims ≡ some a.host_id)
      × (column "framework" claims ≡ some a.framework)
      × (column "framework_version" claims ≡ some a.framework_version)
      × (column_or "model" claims body.model_id ≡ some a.model_id)
      × (column_or "prompt_version" claims body.prompt_version ≡ some a.prompt_version)
      × (column "nonce" claims ≡ some a.nonce)
      × (as_str signature ≡ some a.signature)
      × (issued_at_of prims claims ≡ some a.issued_at)
      × (a.verified_at ≡ some t)
      × (a.verification_result ≡ some verified)
unfolding attestation_row
columns prims id body claims signature t a h = ground arith

pub attestation_row-IsRecorded :
    (prims : Primitives) (id : ℕ) (body : SessionCreateRequest) (claims : Dict) (signature : Json)
    (t : ℕ) (a : RuntimeAttestation)
    → attestation_row prims id body claims signature t ≡ some a
    → IsRecorded prims body claims signature t a
attestation_row-IsRecorded prims id body claims signature t a h =
    let (
      agent, digest, commit, environment, host, framework, version, model, prompt, nonce, signed,
      issued, at_t, result,
    ) =
      columns prims id body claims signature t a h in
    let (written, dated, moment) = issued_at_of-aware prims claims a.issued_at issued in
    record {
      agent = agent;
      container_digest = as_str-str _ _ digest;
      git_commit = as_str-str _ _ commit;
      environment = as_str-str _ _ environment;
      host_id = as_str-str _ _ host;
      framework = as_str-str _ _ framework;
      framework_version = as_str-str _ _ version;
      model = column_or-str "model" claims body.model_id a.model_id model;
      prompt_version =
          column_or-str "prompt_version" claims body.prompt_version a.prompt_version prompt;
      nonce = as_str-str _ _ nonce;
      signed = as_str-str _ _ signed;
      written = written;
      dated = dated;
      issued_at = moment;
      verified_at = at_t;
      result = result;
    }
