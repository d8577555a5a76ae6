-- ===== src/Deployments/Manifests.antt =====
-- Release manifests: `create_release_manifest` of api/app/services/device_updates.py. `stored_at` is
-- a reading of the clock, the time of the row stored.
use edgewatch_telemetry.Prelude.{
  ℕ, zero, suc, String, Bool, not, ◌||◌, [], ◌∷◌, ◌++◌, ◌==◌, str_eq, if◌then◌else◌,
}
use Prim.Native.String.{◌++◌ as ◌+++◌}
use edgewatch_telemetry.Prelude.Int.{ℤ, pos, ltb_ℤ}
use edgewatch_telemetry.Prelude.Text.{strip, or_default}
use edgewatch_telemetry.Prelude.Dict.{Dict}
use edgewatch_telemetry.Prelude.Time.{Time}
use edgewatch_telemetry.Deployments.{Calls, Tables, ReleaseManifest, Outcome, done, value_error}

-- `len(s)`
unfoldable pub text_length : String → ℕ
text_length String.[] = zero
text_length (String.◌∷◌ c s) = suc (text_length s)

-- the arguments of `create_release_manifest`
pub record ManifestArguments : Type 0 where
  pub git_tag : String
  pub commit_sha : String
  pub update_type : String
  pub artifact_uri : String
  pub artifact_size : ℤ
  pub artifact_sha256 : String
  pub artifact_signature : String
  pub artifact_signature_scheme : String
  pub compatibility : Dict String
  pub signature : String
  pub signature_key_id : String
  pub constraints : Dict String
  pub created_by : String
  pub status : String

abbrev pub is_update_type : String → Bool
is_update_type t =
    str_eq t "application_bundle" || str_eq t "asset_bundle" || str_eq t "system_image"

abbrev pub is_signature_scheme : String → Bool
is_signature_scheme s = str_eq s "none" || str_eq s "openssl_rsa_sha256"

abbrev pub no_digest : String
no_digest = "0000000000000000000000000000000000000000000000000000000000000000"

-- the row of a manifest, with the type, the scheme and the digest already normalized
unfoldable pub manifest_row :
    (String → String) → ManifestArguments → String → String → String → Time → ℕ → ReleaseManifest
manifest_row lower a update_type scheme sha256 stored_at id = record {
  id = id;
  git_tag = strip a.git_tag;
  commit_sha = strip a.commit_sha;
  update_type = update_type;
  artifact_uri = or_default (strip a.artifact_uri) ("memory://" +++ strip a.git_tag);
  artifact_size = if ltb_ℤ a.artifact_size (pos 1) then pos 1 else a.artifact_size;
  artifact_sha256 = sha256;
  artifact_signature = strip a.artifact_signature;
  artifact_signature_scheme = scheme;
  compatibility = a.compatibility;
  signature = strip a.signature;
  signature_key_id = strip a.signature_key_id;
  constraints = a.constraints;
  created_by = strip a.created_by;
  created_at = stored_at;
  status = or_default (lower (strip (or_default a.status "active"))) "active";
}

unfoldable pub create_release_manifest :
    (calls : Calls)
    → ManifestArguments
    → Time
    → Tables calls
    → Outcome (ReleaseManifest × Tables calls)
unfolding text_length manifest_row
create_release_manifest calls a stored_at store =
    let lower = calls.world.lower in
    let update_type = lower (strip (or_default a.update_type "application_bundle")) in
    let scheme = lower (strip (or_default a.artifact_signature_scheme "none")) in
    let sha256 = or_default (lower (strip a.artifact_sha256)) no_digest in
    let row = manifest_row lower a update_type scheme sha256 stored_at store.next_id in
    if not (is_update_type update_type)
    then value_error
    else if not (is_signature_scheme scheme)
    then value_error
    else if not (text_length sha256 == 64)
    then value_error
    else done
        (row, record store { manifests = store.manifests ++ row ∷ []; next_id = suc store.next_id })
