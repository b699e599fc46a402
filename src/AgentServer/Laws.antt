-- ===== src/AgentServer/Laws.antt =====
-- What the server's answers say.
use live_pod_migration.Base.{
  String, ◌<>◌, ◌≡◌, refl, ap, true, false, Option, none, some, List, [], ◌∷◌, ◌==◌, ◌≢◌,
}
use live_pod_migration.Effect.{Action, Error, Outcome, ok, pure, raise, ◌>>◌}
use live_pod_migration.Effect.Yields.{
  Yields, Yields-pure, Yields-raise, Yields-if, Yields-attempt, Yields-caught, Yields-finally,
}
use live_pod_migration.Api.Rpc.{ConvertRequest, ConvertResponse}
use live_pod_migration.AgentServer.Host.{NodeCalls}
use live_pod_migration.AgentServer.Images.{run, build, in_container, convert_checkpoint_to_oci}
use live_pod_migration.AgentServer.{
  convert_failure, converted, convert_existing, convert_file, convert_checkpoint_to_image,
}

module _ {S : Type 0} (n : NodeCalls S) where
  Yields-run :
      {image : String} (text : String) (args : List String) (m : Action S String)
      → Yields (λ a. a ≡ image) m
      → Yields (λ a. a ≡ image) (run n.images text args >> m)
  Yields-run text args m y =
      Yields-attempt (run n.images text args) raise (λ _. m) (λ e. Yields-raise e) (λ _. y)

  build-Yields :
      (id path container image : String)
      → Yields (λ a. a ≡ image) (build n.images id path container image)
  unfolding build
  build-Yields id path container image =
      Yields-run _ _ _ (Yields-run _ _ _ (Yields-run _ _ _ (Yields-pure image refl)))

  in_container-Yields :
      (path container image : String) (r : String × Option Error)
      → Yields (λ a. a ≡ image) (in_container n.images path container image r)
  unfolding in_container
  in_container-Yields path container image (output, none) =
      let id = n.images.trim_space output in
      Yields-finally _ (n.images.command ("rm" ∷ id ∷ [])) (build-Yields id path container image)
  in_container-Yields path container image (output, some e) = Yields-raise _

  convert_checkpoint_to_oci-Yields :
      (path container image : String)
      → Yields (λ a. a ≡ image) (convert_checkpoint_to_oci n.images path container image)
  unfolding convert_checkpoint_to_oci
  convert_checkpoint_to_oci-Yields path container image =
      Yields-attempt _ _ _ (λ e. Yields-raise e) (in_container-Yields path container image)

  abbrev Named : ConvertRequest → ConvertResponse → Type 0
  Named req r =
      (r.success ≡ true → (r.image_reference ≡ req.image_name) × (r.error ≡ ""))
      × (r.success ≡ false → r.image_reference ≡ "")

  Named-failure : (req : ConvertRequest) (text : String) → Named req (convert_failure text)
  Named-failure req text = let apart : false ≢ true = cc in ((λ h. absurd (apart h)), λ h. refl)

  Named-success :
      (req : ConvertRequest) (image : String) → image ≡ req.image_name → Named req (converted image)
  Named-success req image same =
      let apart : true ≢ false = cc in ((λ h. (same, refl)), λ h. absurd (apart h))

  convert_existing-Yields :
      (req : ConvertRequest) (path : String) → Yields (Named req) (convert_existing n req path)
  unfolding convert_existing
  convert_existing-Yields req path =
      Yields-caught (λ a. a ≡ req.image_name) _
        (λ e. pure (convert_failure ("conversion failed: " <> e.text)))
        (λ image. pure (converted image))
        (convert_checkpoint_to_oci-Yields path req.container_name req.image_name)
        (λ e.
          Yields-pure (convert_failure ("conversion failed: " <> e.text))
            (Named-failure req ("conversion failed: " <> e.text)))
        (λ a same. Yields-pure (converted a) (Named-success req a same))

  convert_file-Yields :
      (req : ConvertRequest) (path : String) → Yields (Named req) (convert_file n req path)
  unfolding convert_file
  convert_file-Yields req path =
      let text = "checkpoint file not found: " <> path in
      Yields-attempt (n.not_exists path) _ _ (λ e. Yields-raise e)
        λ missing.
          Yields-if missing (pure (convert_failure text)) (convert_existing n req path)
            (λ _. Yields-pure (convert_failure text) (Named-failure req text))
            (λ _. convert_existing-Yields req path)

  convert-Yields : (req : ConvertRequest) → Yields (Named req) (convert_checkpoint_to_image n req)
  unfolding convert_checkpoint_to_image
  convert-Yields req =
      Yields-if (req.checkpoint_path == "") _ _
        (λ _. Yields-pure _ (Named-failure req "checkpoint path is required"))
        λ _.
          Yields-if (req.image_name == "") _ _
            (λ _. Yields-pure _ (Named-failure req "image name is required"))
            λ _. convert_file-Yields req _

-- A conversion that the server reports as done names the image that was asked for and no error, and
-- one that failed names none.
pub convert_checkpoint_to_image-names :
    {S : Type 0} (n : NodeCalls S) (req : ConvertRequest) (resp : ConvertResponse) (s s₁ : S)
    → convert_checkpoint_to_image n req s ≡ (ok resp, s₁)
    → (resp.success ≡ true → (resp.image_reference ≡ req.image_name) × (resp.error ≡ ""))
      × (resp.success ≡ false → resp.image_reference ≡ "")
convert_checkpoint_to_image-names {S} n req resp s s₁ e =
    (convert-Yields n req).at s resp (ap (λ (x : Outcome ConvertResponse × S). x.0) e)
