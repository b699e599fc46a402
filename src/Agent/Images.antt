-- ===== src/Agent/Images.antt =====
-- From the checkpoint of a container to its image, through the reconcilers and the agents.
use Prim.Native.Char.{Char, code}
use text.Mathlib.TextLemmas.{cons-append, head-eq_of_cons-eq}
use live_pod_migration.Base.{
  ℕ, String, ◌<>◌, ◌≡◌, ◌≢◌, refl, ap, ◌∙◌, sym, ◌⊎◌, inl, inr, false, Bool-cases, arith,
}
use live_pod_migration.Base.Text.{has_prefix}
use live_pod_migration.Base.Text.Laws.{append_of_has_prefix}
use live_pod_migration.Effect.{ok}
use live_pod_migration.Effect.Yields.{Yields}
use live_pod_migration.Api.Rpc.{CheckpointRequest}
use live_pod_migration.Api.Lpm.{ContainerCheckpoint}
use live_pod_migration.World.{World}
use live_pod_migration.AgentServer.Host.{NodeCalls}
use live_pod_migration.AgentServer.Artifacts.{artifact_name}
use live_pod_migration.Migration.Images.{convert_to_oci_image}

-- the request that the reconciler's call makes of the agent, where the pod has the UID
abbrev pub request : ContainerCheckpoint → String → CheckpointRequest
request ck uid = record {
  pod_namespace = ck.meta.namespace;
  pod_name = ck.spec.pod_name;
  container_name = ck.spec.container_name;
  pod_uid = uid;
}

starts_apart : (s t : String) → "shared://" <> s ≢ "file://" <> t
starts_apart s t e =
    let first : ◌≡◌ {A = Char} "s" "f" =
      head-eq_of_cons-eq (sym (cons-append "s" "hared://" s) ∙ e ∙ cons-append "f" "ile://" t) in
    absurd (omega (arith, ap code first))

fallback-shared : (file : String) → has_prefix ("file://" <> file) "shared://" ≡ false
fallback-shared file = elim (Bool-cases (has_prefix ("file://" <> file) "shared://")) [
  | inl shared ↦
      let (s, e) = append_of_has_prefix ("file://" <> file) "shared://" shared in
      absurd (starts_apart s file e)
  | inr other ↦ other
]

-- A URI that no agent converts, such as that of a checkpoint whose copy to the shared mount failed, is
-- taken for the name of an image as it is.
pub convert_to_oci_image-fallback :
    {S : Type 0} (w : World S) (file container target : String) (s : S)
    → convert_to_oci_image w ("file://" <> file) container target s ≡ (ok ("file://" <> file), s)
unfolding convert_to_oci_image
convert_to_oci_image-fallback w file container target s = rw (fallback-shared file) refl

-- the image of a checkpoint on the shared mount, named for the request and for a time that the clock of
-- an agent's node told, or the URI of a checkpoint that stayed on its node
abbrev pub ImageOf : {T : Type 0} → (ℕ → NodeCalls T) → CheckpointRequest → String → Type 0
ImageOf {T} n req image =
    ((c : ℕ) × (stamp : String) × (t : T) × (((n c).files.timestamp t).0 ≡ ok stamp)
      × (image ≡ "localhost/checkpoint:" <> artifact_name req stamp))
    ⊎ ((file : String) × (image ≡ "file://" <> file))
