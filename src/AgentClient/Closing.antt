-- ===== src/AgentClient/Closing.antt =====
-- The connections of the calls of the agent, in the log.
use live_pod_migration.Base.{
  Bool, true, false, if◌then◌else◌, ℕ, String, ◌≡◌, ◌≢◌, refl, ap, sym, ◌∙◌, ◌∷◌,
}
use live_pod_migration.Effect.{
  Action, Error, Outcome, ok, err, panic, wrap, raise, pure, resume, finally,
}
use live_pod_migration.Api.Rpc.{ConvertResponse, CheckpointResponse}
use live_pod_migration.World.{World}
use live_pod_migration.World.Trace.{
  Event, dialed, called_checkpoint, called_convert, hung_up, Log, Traced, traced, logged,
}
use live_pod_migration.AgentClient.Dialing.{
  Dialled, no_endpoint, no_answer, opened, dial_agent-Dialled,
}
use live_pod_migration.AgentClient.{
  dial_agent, connected, checkpoint_container, convert_checkpoint_to_image,
}

-- What an answer `a` of the call says of the response that it was made of.
abbrev pub Answers : {X : Type 0} → (X → String → Type 0) → Outcome X → Outcome String → Type 0
Answers {X} Good x r = (a : String) → r ≡ ok a → (resp : X) × (x ≡ ok resp) × Good resp a

-- How a call that ends with `r` leaves the log `es`, where it was `old`: without an endpoint nothing was
-- dialed; a dial was refused; or a connection was opened, the request was made on it, `call` with its
-- response, and it was closed. Only then there is an answer, and it is one for that response.
pub data Closed {X : Type 0} (call : ℕ → Outcome X → Event) (Good : X → String → Type 0) (old : Log)
    : Outcome String → Log → Type 0 where
  unconnected :
      {r : Outcome String} {es : Log}
      → ((a : String) → r ≢ ok a)
      → es ≡ old
      → Closed call Good old r es
  refused :
      {r : Outcome String} {es : Log} (x : Outcome ℕ)
      → ((c : ℕ) → x ≢ ok c)
      → ((a : String) → r ≢ ok a)
      → es ≡ dialed x ∷ old
      → Closed call Good old r es
  closed :
      {r : Outcome String} {es : Log} (c : ℕ) (x : Outcome X)
      → es ≡ hung_up c ∷ call c x ∷ dialed (ok c) ∷ old
      → Answers Good x r
      → Closed call Good old r es

module _ {S : Type 0} (w : World S) {X : Type 0} (event : ℕ → Outcome X → Event)
    (Good : X → String → Type 0) (call : ℕ → Action (Traced S) String)
    (made : (c : ℕ) (t : Traced S)
      → (x : Outcome X) × ((call c t).1.log ≡ event c x ∷ t.log)
        × Answers Good x (call c t).0) where
  hang_up-Closed :
      (text : String) (es : Log) (r : Outcome ℕ) (t : Traced S)
      → Dialled es r t.log
      → let end =
          resume r
            (λ e. raise (wrap text e))
            (λ conn. finally (call conn) ((traced w).hang_up conn))
            t in
        Closed event Good es end.0 end.1.log
  unfolding logged
  hang_up-Closed text es (ok c) t (no_endpoint bad e) = absurd (bad c refl)
  hang_up-Closed text es (ok c) t (no_answer x _ bad e) = absurd (bad c refl)
  hang_up-Closed text es (ok c) t (opened d same e) =
      let here : c ≡ d = cc in
      let (x, called, answers) = made c t in
      closed c x
        (ap (λ l. hung_up c ∷ l)
          (called ∙ ap (λ l. event c x ∷ l) (e ∙ ap (λ y. dialed (ok y) ∷ es) (sym here))))
        answers
  hang_up-Closed text es (err x) t (no_endpoint bad e) = unconnected (λ a h. cc) e
  hang_up-Closed text es (err x) t (no_answer y bad _ e) = refused y bad (λ a h. cc) e
  hang_up-Closed text es (err x) t (opened d same e) = cc
  hang_up-Closed text es panic t (no_endpoint bad e) = unconnected (λ a h. cc) e
  hang_up-Closed text es panic t (no_answer y bad _ e) = refused y bad (λ a h. cc) e
  hang_up-Closed text es panic t (opened d same e) = cc

  connected-Closed :
      (node : String) (t : Traced S)
      → let end = connected (traced w) node call t in Closed event Good t.log end.0 end.1.log
  connected-Closed node t =
      hang_up-Closed _ t.log (dial_agent (traced w) node t).0 (dial_agent (traced w) node t).1
        (dial_agent-Dialled w node t)

-- the answer of a request, where `success` and `value` are those of its response
module _ {S X : Type 0} (success : X → Bool) (value : X → String) where
  if_answers :
      (b : Bool) (a : String) (e : Error) (t : Traced S)
      → let end = (if b then pure {S = Traced S} a else raise e) t in
        (end.1.log ≡ t.log) × ((x : String) → end.0 ≡ ok x → (b ≡ true) × (x ≡ a))
  if_answers true a e t = (refl, λ x h. (refl, cc))
  if_answers false a e t = (refl, λ x h. cc)

  answers :
      (r : Outcome X) (text : String) (e : X → Error) (t : Traced S)
      → let end =
          resume r
            (λ x. raise (wrap text x))
            (λ resp. if success resp then pure (value resp) else raise (e resp))
            t in
        (end.1.log ≡ t.log) × Answers (λ resp a. (success resp ≡ true) × (a ≡ value resp)) r end.0
  answers (ok resp) text e t =
      let (kept, good) = if_answers (success resp) (value resp) (e resp) t in
      (kept, λ a h. (resp, refl, good a h))
  answers (err x) text e t = (refl, λ a h. cc)
  answers panic text e t = (refl, λ a h. cc)

-- Whatever the world answers, each of the two calls of the agent dials once at most, makes its one
-- request on the connection that it was given, for what it was called with, and closes that connection
-- right after the request, whether that succeeds or fails; it closes no other, and it answers only with
-- the URI or the image of a response that reports success.
pub calls-Closed :
    {S : Type 0} (w : World S) (node a b c d : String) (t : Traced S)
    → let made = checkpoint_container (traced w) node a b c d t in
      let converted = convert_checkpoint_to_image (traced w) node a b c t in
      Closed
        (λ conn.
          called_checkpoint conn
            (record { pod_namespace = a; pod_name = b; container_name = c; pod_uid = d }))
        (λ resp uri. (resp.success ≡ true) × (uri ≡ resp.artifact_uri))
        t.log
        made.0
        made.1.log
      × Closed
          (λ conn.
            called_convert conn
              (record { checkpoint_path = a; container_name = b; image_name = c }))
          (λ resp image. (resp.success ≡ true) × (image ≡ resp.image_reference))
          t.log
          converted.0
          converted.1.log
unfolding checkpoint_container convert_checkpoint_to_image logged
calls-Closed w node a b c d t = (
  connected-Closed w _ _ _
      (λ conn t.
        let r = (w.checkpoint_rpc conn _ t.inner).0 in
        let (kept, good) =
          answers (λ (x : CheckpointResponse). x.success) (λ x. x.artifact_uri) r _ _
            (record {
              inner = (w.checkpoint_rpc conn _ t.inner).1;
              log = called_checkpoint conn _ r ∷ t.log;
            }) in
        (r, kept, good))
      node t,
  connected-Closed w _ _ _
      (λ conn t.
        let r = (w.convert_rpc conn _ t.inner).0 in
        let (kept, good) =
          answers (λ (x : ConvertResponse). x.success) (λ x. x.image_reference) r _ _
            (record {
              inner = (w.convert_rpc conn _ t.inner).1;
              log = called_convert conn _ r ∷ t.log;
            }) in
        (r, kept, good))
      node t,
)
