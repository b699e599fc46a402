-- ===== src/Migration/Images/Writes.antt =====
-- What `handlePreparingImagesPhase` keeps: every predicate that admits its calls and status writes.
use live_pod_migration.Base.{String, ◌≡◌, Bool, true, List, [], ◌∷◌, ap, ◌∙◌}
use live_pod_migration.Base.Text.{contains}
use live_pod_migration.Effect.Keeps.{Keeps, Keeps-pure, Keeps-if, Keeps-attempt}
use live_pod_migration.Effect.Yields.{Keeps-bind_of_Yields}
use live_pod_migration.Api.Core.{Container, Pod, LocalObjectReference}
use live_pod_migration.Api.Lpm.{PodMigration, PodCheckpointContent, preparing_images}
use live_pod_migration.World.{World}
use live_pod_migration.Base.Maps.{StringMap}
use live_pod_migration.World.Trace.{Log, traced, OnLog, trace_rules}
use live_pod_migration.Migration.Diagram.{LogAdmits, Admits, phase_rules, update_phase-Keeps}
use live_pod_migration.AgentClient.{convert_checkpoint_to_image}
use live_pod_migration.AgentClient.Calls.{convert_checkpoint_to_image-Keeps}
use live_pod_migration.Migration.Images.{
  returned, finished, with_images, images_of, path_in, get_checkpoint_content, convert_one,
  prepare_one, prepare_all, finish_images, prepare_images, handle_preparing_images,
}
use live_pod_migration.Migration.Images.Loop.{Prepared, prepare_one-Prepared, prepare_all-Prepared}

module _ {S : Type 0} (w : World S) (m : PodMigration) {P : S → Type 0}
    (adm : Admits w m preparing_images P)
    (finish : (cs : List Container) (m' : PodMigration) (ready : Bool)
      → m'.meta ≡ m.meta
      → m'.status.phase ≡ preparing_images
      → Keeps P (finish_images w cs m' ready)) where
  path_in-Keeps :
      (namespace container : String) (refs : List LocalObjectReference)
      → Keeps P (path_in w namespace container refs)
  unfolding path_in
  path_in-Keeps namespace container [] = Keeps-pure _
  path_in-Keeps namespace container (ref ∷ refs) =
      Keeps-attempt _ _ _ (adm.calls.get_container_content _)
        (λ _. path_in-Keeps namespace container refs)
        (λ content.
          Keeps-if (contains content.meta.name container) _ _ (λ _. Keeps-pure _)
            (λ _. path_in-Keeps namespace container refs))

  convert-Keeps :
      (node path container image : String)
      → Keeps P (convert_checkpoint_to_image w node path container image)
  convert-Keeps =
      let c = adm.calls in
      convert_checkpoint_to_image-Keeps w c.get_node c.dial c.hang_up c.convert_rpc

  convert_one-Keeps :
      (m' : PodMigration) (ready : Bool) (container path : String)
      → Keeps P (convert_one w m' ready container path)
  unfolding convert_one
  convert_one-Keeps m' ready container path = search (phase_rules, convert-Keeps) depth 8

  prepare_one-Keeps :
      (content : PodCheckpointContent) (old : StringMap) (ready : Bool) (c : Container)
      → Keeps P (prepare_one w content (with_images m old) ready c)
  unfolding prepare_one
  prepare_one-Keeps content old ready c =
      search (phase_rules, path_in-Keeps, convert_one-Keeps, update_phase-Keeps w m adm) depth 10

  prepare_all-Keeps :
      (content : PodCheckpointContent) (cs : List Container) (old : StringMap) (ready : Bool)
      → Keeps P (prepare_all w content cs (with_images m old) ready)
  unfolding prepare_all
  prepare_all-Keeps content [] old ready = Keeps-pure _
  prepare_all-Keeps content (c ∷ cs) old ready =
      Keeps-bind_of_Yields (Prepared m old (c ∷ []) ready) _ _
        (prepare_one-Keeps content old ready c) (prepare_one-Prepared w content m old ready c)
        (elim [
          | returned r ↦ λ _. Keeps-pure _
          | finished m' ready' ↦ λ p.
              let same : m' ≡ with_images m p.0 = p.1 in
              rw same (prepare_all-Keeps content cs p.0 ready')
        ])

  prepare_images-Keeps :
      (content : PodCheckpointContent) (pod : Pod)
      → m.status.phase ≡ preparing_images
      → Keeps P (prepare_images w m content pod)
  unfolding prepare_images
  prepare_images-Keeps content pod e =
      let cs = pod.spec.containers in
      Keeps-bind_of_Yields (Prepared m (images_of m) cs true) _ _
        (prepare_all-Keeps content cs (images_of m) true)
        (prepare_all-Prepared w content m cs (images_of m) true)
        (elim [
          | returned r ↦ λ _. Keeps-pure _
          | finished m' ready' ↦ λ p.
              finish cs m' ready' (ap (λ (x : PodMigration). x.meta) p.1)
                (ap (λ (x : PodMigration). x.status.phase) p.1 ∙ e)
        ])

  get_checkpoint_content-Keeps : Keeps P (get_checkpoint_content w m)
  unfolding get_checkpoint_content
  get_checkpoint_content-Keeps =
      search (phase_rules, adm.calls.get_pod_checkpoint, adm.calls.get_pod_content) depth 10

  pub handle_preparing_images-Keeps :
      m.status.phase ≡ preparing_images → Keeps P (handle_preparing_images w m)
  unfolding handle_preparing_images
  handle_preparing_images-Keeps e =
      search
        (
          phase_rules,
          adm.calls.get_pod,
          get_checkpoint_content-Keeps,
          prepare_images-Keeps,
          update_phase-Keeps w m adm,
        )
        depth 8

-- With a log, the images are written as any status is.
pub finish_images-traced :
    {S : Type 0} (w : World S) (m : PodMigration) {P : Log → Type 0}
    → LogAdmits preparing_images P
    → (cs : List Container) (m' : PodMigration) (ready : Bool) → m'.meta ≡ m.meta
    → m'.status.phase ≡ preparing_images
    → Keeps (OnLog P) (finish_images (traced w) cs m' ready)
unfolding finish_images
finish_images-traced w m adm cs m' ready same e =
    search (phase_rules, trace_rules, adm.on_write, adm.on_call) depth 10
