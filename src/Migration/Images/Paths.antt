-- ===== src/Migration/Images/Paths.antt =====
-- Which checkpoint `getCheckpointPathForContainer` finds.
use mathlib.Core.List.{filter_map}
use mathlib.Core.Option.{Option-elim}
use live_pod_migration.Base.{
  String, ◌<>◌, ◌≡◌, refl, ap, ◌∙◌, Bool, true, false, Option, none, some, List, [], ◌∷◌, ◌++◌,
  if◌then◌else◌,
}
use live_pod_migration.Base.Text.{contains}
use live_pod_migration.Base.Text.Laws.{contains-joined}
use live_pod_migration.Effect.{Action, Error, Outcome, ok, err, pure, resume}
use live_pod_migration.Api.Core.{LocalObjectReference}
use live_pod_migration.Api.Lpm.{PodCheckpointContent, ContainerCheckpointContent}
use live_pod_migration.World.{World}
use live_pod_migration.Reconcile.{key}
use live_pod_migration.Migration.Images.{path_in, get_checkpoint_path_for_container}

-- what a read answers: the object, or an error
abbrev pub answer : Error → Option ContainerCheckpointContent → Outcome ContainerCheckpointContent
answer e none = err e
answer e (some c) = ok c

-- reads of the contents in a namespace change nothing, and find each as `found` has it
abbrev pub ReadsFrom :
    {S : Type 0} → World S → String → Error → (String → Option ContainerCheckpointContent) → Type 0
ReadsFrom {S} w namespace e found =
    (name : String) (s : S)
    → w.get_container_content (key namespace name) s ≡ (answer e (found name), s)

-- the artifact of a content that can be read and whose name contains the container's
abbrev pub artifact_for : String → Option ContainerCheckpointContent → Option String
artifact_for container none = none
artifact_for container (some c) =
    if contains c.meta.name container then some c.spec.artifact_uri else none

-- the artifacts that a container's name fits, in the order of the references
abbrev pub artifacts :
    (String → Option ContainerCheckpointContent) → String → List LocalObjectReference → List String
artifacts found container refs = filter_map (λ r. artifact_for container (found r.name)) refs

abbrev pub first_or_empty : List String → String
first_or_empty [] = ""
first_or_empty (uri ∷ uris) = uri

-- the references to the contents of the containers, as the evaluation of the children collects them
abbrev pub references : String → List String → List LocalObjectReference
references checkpoint [] = []
references checkpoint (c ∷ cs) = record { name = checkpoint <> "-" <> c } ∷ references checkpoint cs

module _ {S : Type 0} (s : S) (e : Error) (container : String) (rest : Action S String)
    (uris : List String) (follows : rest s ≡ (ok (first_or_empty uris), s)) where
  fitting :
      (fits : Bool) (uri : String)
      → (if fits then pure uri else rest) s ≡ (
        ok (first_or_empty (Option-elim (if fits then some uri else none) uris (λ u. u ∷ uris))),
        s,
      )
  unfolding Option-elim
  fitting true uri = refl
  fitting false uri = follows

  one :
      (o : Option ContainerCheckpointContent)
      → resume
          (answer e o)
          (λ _. rest)
          (λ c. if contains c.meta.name container then pure c.spec.artifact_uri else rest)
          s
        ≡ (ok (first_or_empty (Option-elim (artifact_for container o) uris (λ u. u ∷ uris))), s)
  unfolding Option-elim
  one none = follows
  one (some c) = fitting (contains c.meta.name container) c.spec.artifact_uri

-- Where reads of the contents are answered from a fixed collection, the path that is found for a container
-- is the first of the artifacts of the readable contents whose names contain the container's name, and the
-- empty text if there is none.
pub path_in-first :
    {S : Type 0} (w : World S) (namespace : String) (e : Error)
    (found : String → Option ContainerCheckpointContent) (container : String)
    (refs : List LocalObjectReference) (s : S)
    → ReadsFrom w namespace e found
    → path_in w namespace container refs s
      ≡ (ok (first_or_empty (artifacts found container refs)), s)
unfolding path_in filter_map
path_in-first w namespace e found container [] s reads = refl
path_in-first w namespace e found container (r ∷ refs) s reads = rw (reads r.name s) (
    one s e container (path_in w namespace container refs) (artifacts found container refs)
      (path_in-first w namespace e found container refs s reads) (found r.name))

-- `d`'s content fits no lookup for `c`
abbrev pub Misses :
    (String → Option ContainerCheckpointContent) → String → String → List String → Type 0
Misses found checkpoint c [] = Unit
Misses found checkpoint c (d ∷ ds) =
    (artifact_for c (found (checkpoint <> "-" <> d)) ≡ none) × Misses found checkpoint c ds

artifacts-child :
    (found : String → Option ContainerCheckpointContent) (checkpoint c : String)
    (content : ContainerCheckpointContent) (before after : List String)
    → found (checkpoint <> "-" <> c) ≡ some content
    → content.meta.name ≡ checkpoint <> "-" <> c
    → Misses found checkpoint c before
    → first_or_empty (artifacts found c (references checkpoint (before ++ (c ∷ after))))
      ≡ content.spec.artifact_uri
unfolding filter_map Option-elim
artifacts-child found checkpoint c content [] after there named tt =
    let fits : contains content.meta.name c ≡ true =
      ap (λ name. contains name c) named ∙ contains-joined checkpoint "-" c in
    rw (there, fits) refl
artifacts-child found checkpoint c content (d ∷ before) after there named (miss, misses) =
    rw miss (artifacts-child found checkpoint c content before after there named misses)

-- A container whose ContainerCheckpointContent can be read gets its own artifact, unless a content that is
-- listed before it fits its name too.
pub get_checkpoint_path_for_container-own :
    {S : Type 0} (w : World S) (e : Error) (found : String → Option ContainerCheckpointContent)
    (whole : PodCheckpointContent) (checkpoint c : String) (own : ContainerCheckpointContent)
    (before after : List String) (s : S)
    → ReadsFrom w whole.meta.namespace e found
    → whole.spec.container_contents ≡ references checkpoint (before ++ (c ∷ after))
    → found (checkpoint <> "-" <> c) ≡ some own
    → own.meta.name ≡ checkpoint <> "-" <> c
    → Misses found checkpoint c before
    → get_checkpoint_path_for_container w whole c s ≡ (ok own.spec.artifact_uri, s)
unfolding get_checkpoint_path_for_container
get_checkpoint_path_for_container-own w e found whole checkpoint c own before after s reads refs
      there named misses =
    let list = whole.spec.container_contents in
    path_in-first w whole.meta.namespace e found c list s reads
    ∙ ap (λ rs. (ok (first_or_empty (artifacts found c rs)), s)) refs
    ∙ ap (λ uri. (ok uri, s))
        (artifacts-child found checkpoint c own before after there named misses)
