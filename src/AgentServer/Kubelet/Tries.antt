-- ===== src/AgentServer/Kubelet/Tries.antt =====
-- doCheckpointWithBackoff: how often the kubelet is asked.
use live_pod_migration.Base.{
  ℕ, suc, ◌+◌, ◌≤◌, String, ◌<>◌, ◌≡◌, refl, Bool, true, false, Option, none, some, List, [], ◌∷◌,
  arith, not, ◌||◌, leb, if◌then◌else◌,
}
use live_pod_migration.Effect.{Action, Error, Outcome, ok, err, panic, new_error, resume}
use live_pod_migration.AgentServer.Host.{NodeCalls, Trying, HttpResponse}
use live_pod_migration.AgentServer.Kubelet.{
  again, accept, parse_body, read_response, try_checkpoint, retried, do_checkpoint_with_backoff,
}

-- `wait.ExponentialBackoff` from `t` to `u`: so many runs of its condition, between which it waits and
-- others act, but send nothing for this call.
pub data Ran {S : Type 0} (sent : S → ℕ) (condition : Action (Trying S) Bool) (t : Trying S)
    : ℕ → Trying S → Type 0 where
  started : Ran sent condition t 0 t
  waited :
      {k : ℕ} {u : Trying S}
      → Ran sent condition t k u
      → (u' : Trying S) → sent u'.outer ≡ sent u.outer
      → Ran sent condition t k u'
  ran :
      {k : ℕ} {u : Trying S}
      → Ran sent condition t k u
      → Ran sent condition t (suc k) (condition u).1

-- `sent` counts the requests that were sent: `Do` sends one, if it comes to that, and nothing else does.
-- The backoff runs its condition no more often than it has steps.
pub record Counts {S : Type 0} (n : NodeCalls S) (sent : S → ℕ) : Type 0 where
  pub new_request : (url : String) (s : S) → sent (n.new_request url s).1 ≤ sent s
  pub send : (client req : ℕ) (s : S) → sent (n.send client req s).1 ≤ suc (sent s)
  pub response :
      (client req : ℕ) (s : S) (resp : HttpResponse S)
      → (n.send client req s).0 ≡ ok resp
      → (u : S) → (sent (resp.read_all u).1 ≤ sent u) × (sent (resp.close u).1 ≤ sent u)
  pub unmarshal : (bytes : String) (s : S) → sent (n.unmarshal bytes s).1 ≤ sent s
  pub backoff :
      (steps : ℕ) (condition : Action (Trying S) Bool) (t : Trying S)
      → (k : ℕ) × (k ≤ steps) × Ran sent condition t k (n.exponential_backoff steps condition t).1

module _ {S : Type 0} (n : NodeCalls S) (sent : S → ℕ) (counts : Counts n sent) where
  -- no more than `most` requests so far
  abbrev Within : ℕ → Trying S → Type 0
  Within most t = sent t.outer ≤ most

  resume-Within :
      {A : Type 0} (most : ℕ) (r : Outcome A) (h : Error → Action (Trying S) Bool)
      (f : A → Action (Trying S) Bool) (t : Trying S)
      → Within most t
      → ((e : Error) → Within most (h e t).1)
      → ((a : A) → r ≡ ok a → Within most (f a t).1)
      → Within most (resume r h f t).1
  resume-Within most (ok a) h f t w kh kf = kf a refl
  resume-Within most (err e) h f t w kh kf = kh e
  resume-Within most panic h f t w kh kf = w

  accept-Within :
      (most : ℕ) (files : List String) (t : Trying S)
      → Within most t
      → Within most (accept n files t).1
  unfolding accept
  accept-Within most [] t w = w
  accept-Within most (f ∷ files) t w = w

  parse_body-Within :
      (most : ℕ) (body : String × Option Error) (t : Trying S)
      → Within most t
      → Within most (parse_body n body t).1
  unfolding parse_body
  parse_body-Within most (bytes, some e) t w = w
  parse_body-Within most (bytes, none) t w =
      let less : sent (n.unmarshal bytes t.outer).1 ≤ most =
        omega (arith, counts.unmarshal bytes t.outer, w) in
      resume-Within most (n.unmarshal bytes t.outer).0 _ _ _ less (λ e. less)
        (λ files e. accept-Within most files _ less)

  if-Within :
      (most : ℕ) (b : Bool) (m k : Action (Trying S) Bool) (t : Trying S)
      → Within most (m t).1
      → Within most (k t).1
      → Within most ((if b then m else k) t).1
  if-Within most true m k t wm wk = wm
  if-Within most false m k t wm wk = wk

  read_response-Within :
      (most : ℕ) (resp : HttpResponse S) (t : Trying S)
      → ((u : S) → sent (resp.read_all u).1 ≤ sent u)
      → Within most t
      → Within most (read_response n resp t).1
  unfolding read_response
  read_response-Within most resp t reads w =
      let less : sent (resp.read_all t.outer).1 ≤ most = omega (arith, reads t.outer, w) in
      resume-Within most (resp.read_all t.outer).0 _ _ _ less (λ e. less)
        (λ body e.
          if-Within most (not (leb 200 resp.status) || leb 300 resp.status)
            (again n (new_error ("kubelet responded " <> n.decimal resp.status <> ": " <> body.0)))
            (parse_body n body) _ less (parse_body-Within most body _ less))

  try_checkpoint-Within :
      (client : ℕ) (url : String) (t : Trying S)
      → Within (suc (sent t.outer)) (try_checkpoint n client url t).1
  unfolding try_checkpoint
  try_checkpoint-Within client url t =
      let made = n.new_request url t.outer in
      let most = suc (sent t.outer) in
      let first : sent made.1 ≤ most = omega (arith, counts.new_request url t.outer) in
      resume-Within most made.0 _ _ _ first (λ e. first)
        λ req e.
          let got = n.send client req made.1 in
          let second : sent got.1 ≤ most =
            omega (arith, counts.new_request url t.outer, counts.send client req made.1) in
          resume-Within most got.0 _ _ _ second (λ e. second)
            λ resp there.
              let u = (read_response n resp (record t { outer = got.1 })).1.outer in
              let closes = (counts.response client req made.1 resp there u).1 in
              let third =
                read_response-Within most resp (record t { outer = got.1 })
                  (λ v. (counts.response client req made.1 resp there v).0) second in
              omega (arith, closes, third)

  Ran-Within :
      (client : ℕ) (url : String) (t u : Trying S) (k : ℕ)
      → Ran sent (try_checkpoint n client url) t k u
      → Within (sent t.outer + k) u
  Ran-Within client url t u k started = omega arith
  Ran-Within client url t u k (waited before u' same) =
      let less = Ran-Within client url t _ k before in omega (arith, less, same)
  Ran-Within client url t u k (ran {k = j} {u = v} before) =
      let less = Ran-Within client url t v j before in
      omega (arith, less, try_checkpoint-Within client url v)

  retried-outer : (r : Outcome (Unit {0})) (t : Trying S) → (retried n (r, t)).1 ≡ t.outer
  unfolding retried
  retried-outer (ok u) t = refl
  retried-outer (err e) t = refl
  retried-outer panic t = refl

-- If the backoff runs its condition at most as often as it has steps, and only `Do` sends a request, then
-- one call of doCheckpointWithBackoff sends at most five requests to the kubelet, however it ends.
pub do_checkpoint_with_backoff-requests :
    {S : Type 0} (n : NodeCalls S) (sent : S → ℕ) (client : ℕ) (url : String) (s : S)
    → Counts n sent
    → sent (do_checkpoint_with_backoff n client url s).1 ≤ sent s + 5
unfolding do_checkpoint_with_backoff
do_checkpoint_with_backoff-requests {S} n sent client url s counts =
    let t : Trying S = record { outer = s; checkpoint_files = []; last_err = none } in
    let end = n.exponential_backoff 5 (try_checkpoint n client url) t in
    let (k, few, runs) = counts.backoff 5 (try_checkpoint n client url) t in
    rw (retried-outer n sent counts end.0 end.1)
      (omega (arith, few, Ran-Within n sent counts client url t end.1 k runs))
