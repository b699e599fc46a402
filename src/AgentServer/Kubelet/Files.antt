-- ===== src/AgentServer/Kubelet/Files.antt =====
-- doCheckpointWithBackoff: the files that the call of the kubelet gives.
use live_pod_migration.Base.{
  ℕ, String, ◌<>◌, ◌≡◌, refl, ap, ◌∙◌, ◌≢◌, Bool, true, false, Option, none, some, List, [], ◌∷◌,
  not, ◌||◌, leb, if◌then◌else◌,
}
use live_pod_migration.Effect.{Action, Error, Outcome, ok, err, panic, new_error, resume, maybe}
use live_pod_migration.AgentServer.Host.{NodeCalls, Trying, HttpResponse}
use live_pod_migration.AgentServer.Kubelet.{
  again, accept, parse_body, read_response, try_checkpoint, retried, do_checkpoint_with_backoff,
}

-- What apimachinery documents of `wait.ExponentialBackoff`: it returns without an error only when its
-- condition, a function of the captured variables and the world, has just returned true.
abbrev pub StopsWhenDone : {S : Type 0} → NodeCalls S → Type 0
StopsWhenDone {S} n =
    (steps : ℕ) (condition : Action (Trying S) Bool) (t t₁ : Trying S)
    → n.exponential_backoff steps condition t ≡ (ok tt, t₁)
    → (t₀ : Trying S) × (condition t₀ ≡ (ok true, t₁))

-- an answer `true` comes with files
abbrev Found : {S : Type 0} → Outcome Bool × Trying S → Type 0
Found r = r.0 ≡ ok true → r.1.checkpoint_files ≢ []

module _ {S : Type 0} (n : NodeCalls S) where
  accept-Found : (files : List String) (t : Trying S) → Found (accept n files t)
  unfolding accept
  accept-Found [] t = λ e. cc
  accept-Found (f ∷ files) t = λ e h. cc

  again-Found : (e : Error) (t : Trying S) → Found (again n e t)
  again-Found e t = λ h. cc

  -- a call outside comes first; an error of it is no success
  resume-Found :
      {A : Type 0} (r : Outcome A) (h : Error → Action (Trying S) Bool)
      (f : A → Action (Trying S) Bool) (t : Trying S)
      → ((e : Error) (t : Trying S) → Found (h e t))
      → ((a : A) (t : Trying S) → Found (f a t))
      → Found (resume r h f t)
  resume-Found (ok a) h f t kh kf = kf a t
  resume-Found (err e) h f t kh kf = kh e t
  resume-Found panic h f t kh kf = λ e. cc

  parse_body-Found : (body : String × Option Error) (t : Trying S) → Found (parse_body n body t)
  unfolding parse_body
  parse_body-Found (bytes, some e) t = λ h. cc
  parse_body-Found (bytes, none) t =
      resume-Found (n.unmarshal bytes t.outer).0 _ _ _ (λ e t h. cc) accept-Found

  if-Found :
      (b : Bool) (m k : Action (Trying S) Bool) (t : Trying S)
      → Found (m t)
      → Found (k t)
      → Found ((if b then m else k) t)
  if-Found true m k t fm fk = fm
  if-Found false m k t fm fk = fk

  read_response-Found : (resp : HttpResponse S) (t : Trying S) → Found (read_response n resp t)
  unfolding read_response
  read_response-Found resp t =
      resume-Found (resp.read_all t.outer).0 _ _ _ (λ e t h. cc)
        (λ body t.
          let text = "kubelet responded " <> n.decimal resp.status <> ": " <> body.0 in
          if-Found (not (leb 200 resp.status) || leb 300 resp.status) (again n (new_error text))
            (parse_body n body) t (again-Found (new_error text) t) (parse_body-Found body t))

  try_checkpoint-Found :
      (client : ℕ) (url : String) (t : Trying S) → Found (try_checkpoint n client url t)
  unfolding try_checkpoint
  try_checkpoint-Found client url t =
      resume-Found (n.new_request url t.outer).0 _ _ _ (λ e t h. cc)
        (λ req t.
          resume-Found (n.send client req t.outer).0 _ _ _ (λ e t h. cc)
            (λ resp t. read_response-Found resp t))

  no_success :
      (o : Option Error) (x : Error) (f : Error → Error) (files : List String)
      → maybe {B = Outcome (List String)} o (err x) (λ e. err (f e)) ≢ ok files
  no_success none x f files e = cc
  no_success (some y) x f files e = cc

  retried-ok :
      (r : Outcome (Unit {0})) (t : Trying S) (files : List String) (s₁ : S)
      → retried n (r, t) ≡ (ok files, s₁)
      → (r ≡ ok tt) × (files ≡ t.checkpoint_files)
  unfolding retried
  retried-ok (ok u) t files s₁ e = (refl, cc)
  retried-ok (err x) t files s₁ e =
      absurd (no_success t.last_err _ _ files (ap (λ (x : Outcome (List String) × S). x.0) e))
  retried-ok panic t files s₁ e = cc

-- If the backoff stops as documented, a call of the kubelet's checkpoint endpoint that succeeds gives
-- at least one file.
pub do_checkpoint_with_backoff-nonempty :
    {S : Type 0} (n : NodeCalls S) (client : ℕ) (url : String) (files : List String) (s s₁ : S)
    → StopsWhenDone n
    → do_checkpoint_with_backoff n client url s ≡ (ok files, s₁)
    → files ≢ []
unfolding do_checkpoint_with_backoff
do_checkpoint_with_backoff-nonempty {S} n client url files s s₁ stops e =
    let t : Trying S = record { outer = s; checkpoint_files = []; last_err = none } in
    let ran : Outcome (Unit {0}) × Trying S =
      n.exponential_backoff 5 (try_checkpoint n client url) t in
    let (good, same) = retried-ok n ran.0 ran.1 files s₁ e in
    let (t₀, last) =
      stops 5 (try_checkpoint n client url) t ran.1
        (ap (λ (r : Outcome (Unit {0})). (r, ran.1)) good) in
    let found : ran.1.checkpoint_files ≢ [] = λ h.
      try_checkpoint-Found n client url t₀ (ap (λ (x : Outcome Bool × Trying S). x.0) last)
        (ap (λ (x : Outcome Bool × Trying S). x.1.checkpoint_files) last ∙ h) in
    rw same found
