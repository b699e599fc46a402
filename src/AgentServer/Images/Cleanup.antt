-- ===== src/AgentServer/Images/Cleanup.antt =====
-- The commands of buildah that a conversion runs, and that it removes its working container.
use live_pod_migration.Base.{
  String, ◌<>◌, ◌≡◌, refl, ◌≢◌, ◌⊎◌, inl, inr, Option, none, some, List, [], ◌∷◌,
}
use live_pod_migration.Effect.{
  Error, Outcome, ok, err, panic, new_error, pure, raise, resume, maybe,
}
use live_pod_migration.Effect.Logged.{
  WithLog, unlogged, logged, Logs, Appends, Appends-logged, Appends-pure, Appends-raise,
  Appends-attempt, Appends-then,
}
use live_pod_migration.AgentServer.Host.{Buildah}
use live_pod_migration.AgentServer.Images.{run, build, in_container, convert_checkpoint_to_oci}

abbrev pub Command : Type 0
Command = List String

abbrev pub recorded : {S : Type 0} → Buildah S → Buildah (WithLog Command S)
recorded b = record {
  command = λ args. logged (λ _. args) (b.command args);
  trim_space = b.trim_space;
}

abbrev pub from_scratch : Command
from_scratch = "from" ∷ "scratch" ∷ []

abbrev pub removal : String → Command
removal id = "rm" ∷ id ∷ []

-- what is done with the working container, the newest first
abbrev pub steps : String → String → String → String → List Command
steps id path container image =
    ("commit" ∷ id ∷ image ∷ [])
    ∷ ("config"
        ∷ ("--annotation=io.kubernetes.cri-o.annotations.checkpoint.name=" <> container)
        ∷ id
        ∷ [])
    ∷ ("add" ∷ id ∷ path ∷ "/" ∷ [])
    ∷ []

module _ {S : Type 0} (b : Buildah S) where
  checked-Appends :
      (text : String) (o : Option Error)
      → Appends {E = Command} {S = S} []
          (maybe o (pure tt) (λ e. raise (new_error (text <> e.text))))
  checked-Appends text none = Appends-pure tt
  checked-Appends text (some e) = Appends-raise _

  run-Appends : (text : String) (args : Command) → Appends (args ∷ []) (run (recorded b) text args)
  unfolding run
  run-Appends text args =
      Appends-attempt (args ∷ []) [] _ (λ e. e) _ (Appends-logged args (b.command args))
        (λ r. checked-Appends text r.1)

  build-Appends :
      (id path container image : String)
      → Appends (steps id path container image) (build (recorded b) id path container image)
  unfolding build
  build-Appends id path container image = Appends-then (_ ∷ []) _ _ _ (run-Appends _ _) (
      Appends-then (_ ∷ []) _ _ _ (run-Appends _ _)
        (Appends-then (_ ∷ []) [] _ _ (run-Appends _ _) (Appends-pure image)))

  -- what the answer to `from scratch` leads to
  abbrev pub Cleaned :
      String
      → String
      → String
      → Outcome (String × Option Error)
      → Outcome String
      → List Command
      → Type 0
  Cleaned path container image answer r log =
      (((output : String) → answer ≢ ok (output, none))
        × ((a : String) → r ≢ ok a)
        × (log ≡ from_scratch ∷ []))
      ⊎ ((output : String) × (es : List Command) × (answer ≡ ok (output, none))
          × (log ≡ removal (b.trim_space output) ∷ es)
          × Logs (steps (b.trim_space output) path container image) (from_scratch ∷ []) r es)

  after_from :
      (path container image : String) (answer : Outcome (String × Option Error)) (s : S)
      → Cleaned path container image answer
          (resume answer raise
            (in_container (recorded b) path container image)
            (record { inner = s; log = from_scratch ∷ [] })).0
          (resume answer raise
            (in_container (recorded b) path container image)
            (record { inner = s; log = from_scratch ∷ [] })).1.log
  unfolding in_container logged
  after_from path container image (ok (output, none)) s =
      let id = b.trim_space output in
      let t : WithLog Command S = record { inner = s; log = from_scratch ∷ [] } in
      inr (
        output,
        (build (recorded b) id path container image t).1.log,
        refl,
        refl,
        (build-Appends id path container image).at t,
      )
  after_from path container image (ok (output, some e)) s = inl ((λ x h. cc), (λ a h. cc), refl)
  after_from path container image (err e) s = inl ((λ x h. cc), (λ a h. cc), refl)
  after_from path container image panic s = inl ((λ x h. cc), (λ a h. cc), refl)

-- If `buildah from scratch` makes no working container, a conversion fails and runs nothing else. If it
-- makes one, the conversion adds the file, sets the annotation and commits the image, in this order and
-- up to the first that fails, and removes the container last, whether it succeeds or not; if it succeeds
-- none of the three was left out.
pub convert_checkpoint_to_oci-Cleaned :
    {S : Type 0} (b : Buildah S) (path container image : String) (s : S)
    → Cleaned b path container image
        (b.command from_scratch s).0
        (convert_checkpoint_to_oci (recorded b) path container image (unlogged s)).0
        (convert_checkpoint_to_oci (recorded b) path container image (unlogged s)).1.log
unfolding convert_checkpoint_to_oci logged
convert_checkpoint_to_oci-Cleaned b path container image s =
    after_from b path container image (b.command from_scratch s).0 (b.command from_scratch s).1
