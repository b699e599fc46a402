-- ===== src/AgentClient/Dialing.antt =====
-- What a dial of the agent leaves in the log.
use live_pod_migration.Base.{ℕ, String, ◌<>◌, ◌≡◌, ◌≢◌, refl, Option, none, some, ◌∷◌}
use live_pod_migration.Effect.{
  Action, Error, Outcome, ok, err, panic, wrap, raise, pure, resume, attempt, maybe,
}
use mathlib.Core.Path.{subst}
use live_pod_migration.Api.Core.{Node}
use live_pod_migration.World.{World}
use live_pod_migration.World.Trace.{dialed, Log, Traced, traced, logged, silent}
use live_pod_migration.AgentClient.{internal_endpoint, get_node_endpoint, dial_agent}

-- Where the log was `old`: without an endpoint nothing was dialed; or a dial was refused; or a
-- connection was opened.
pub data Dialled (old : Log) : Outcome ℕ → Log → Type 0 where
  no_endpoint : {r : Outcome ℕ} {es : Log} → ((c : ℕ) → r ≢ ok c) → es ≡ old → Dialled old r es
  no_answer :
      {r : Outcome ℕ} {es : Log} (x : Outcome ℕ)
      → ((c : ℕ) → x ≢ ok c)
      → ((c : ℕ) → r ≢ ok c)
      → es ≡ dialed x ∷ old
      → Dialled old r es
  opened :
      {r : Outcome ℕ} {es : Log} (c : ℕ) → r ≡ ok c → es ≡ dialed (ok c) ∷ old → Dialled old r es

module _ {S : Type 0} (w : World S) where
  answered :
      (es : Log) (r : Outcome ℕ) (s : S) (text : String)
      → let end : Outcome ℕ × Traced S =
          resume r (λ e. raise (wrap text e)) pure (record { inner = s; log = dialed r ∷ es }) in
        Dialled es end.0 end.1.log
  answered es (ok c) s text = opened c refl refl
  answered es (err e) s text = no_answer (err e) (λ c h. cc) (λ c h. cc) refl
  answered es panic s text = no_answer panic (λ c h. cc) (λ c h. cc) refl

  -- with the endpoint at hand, if there is one
  dial_endpoint :
      (r : Outcome String) (t : Traced S)
      → let end =
          resume r raise
            (λ endpoint.
              attempt
                ((traced w).dial endpoint)
                (λ e. raise (wrap ("failed to dial " <> endpoint <> ": ") e))
                pure)
            t in
        Dialled t.log end.0 end.1.log
  unfolding logged
  dial_endpoint (ok endpoint) t = answered t.log (w.dial endpoint t.inner).0 _ _
  dial_endpoint (err e) t = no_endpoint (λ c h. cc) refl
  dial_endpoint panic t = no_endpoint (λ c h. cc) refl

  maybe_log :
      (o : Option String) (e : Error) (t : Traced S)
      → (maybe {B = Action (Traced S) String} o (raise e) pure t).1.log ≡ t.log
  maybe_log none e t = refl
  maybe_log (some a) e t = refl

  node_log :
      (r : Outcome Node) (prefix : String) (e : Error) (t : Traced S)
      → (resume {B = String} r
          (λ x. raise (wrap prefix x))
          (λ n. maybe (internal_endpoint n.addresses) (raise e) pure)
          t).1.log
        ≡ t.log
  node_log (ok n) prefix e t = maybe_log (internal_endpoint n.addresses) e t
  node_log (err x) prefix e t = refl
  node_log panic prefix e t = refl

  endpoint_log :
      (node : String) (t : Traced S) → (get_node_endpoint (traced w) node t).1.log ≡ t.log
  unfolding get_node_endpoint silent
  endpoint_log node t =
      node_log (w.get_node (record { namespace = ""; name = node }) t.inner).0 _ _ _

  pub dial_agent-Dialled :
      (node : String) (t : Traced S)
      → Dialled t.log (dial_agent (traced w) node t).0 (dial_agent (traced w) node t).1.log
  unfolding dial_agent
  dial_agent-Dialled node t =
      let end = dial_agent (traced w) node t in
      let u : Traced S = (get_node_endpoint (traced w) node t).1 in
      subst (λ es. Dialled es end.0 end.1.log) (endpoint_log node t)
        (dial_endpoint (get_node_endpoint (traced w) node t).0 u)
