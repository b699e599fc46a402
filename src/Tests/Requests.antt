-- ===== src/Tests/Requests.antt =====
-- A kubelet that is busy: the requests to it are counted.
use live_pod_migration.Base.{ℕ, zero, suc, ◌+◌, ◌≤◌, ◌<>◌, ◌≡◌, Bool, true, false, none, [], arith}
use live_pod_migration.Effect.{Action, Outcome, ok, err, panic, pure}
use live_pod_migration.AgentServer.Host.{NodeCalls, Trying, HttpResponse}
use live_pod_migration.AgentServer.Kubelet.{do_checkpoint_with_backoff}
use live_pod_migration.AgentServer.Kubelet.Tries.{
  Ran, started, ran, Counts, do_checkpoint_with_backoff-requests,
}
use live_pod_migration.Tests.Agent.{after, retry}

abbrev unavailable : HttpResponse ℕ
unavailable = record { status = 503; read_all = pure ("busy", none); close = pure tt }

abbrev busy : NodeCalls ℕ
busy = record {
  mkdir_all = λ path. pure tt;
  not_exists = λ path. pure false;
  read_file = λ path. pure "certificate";
  files = record {
    open_file = λ path. pure 3;
    create_file = λ path. pure 4;
    copy = λ dest source. pure tt;
    sync = λ file. pure tt;
    close_file = λ file. pure tt;
    join = λ folder name. folder <> "/" <> name;
    timestamp = pure "20250101-120000";
  };
  load_key_pair = λ cert key. pure 7;
  has_certs = λ bytes. true;
  http_client = λ cert bytes. 8;
  new_request = λ url. pure 9;
  send = λ client req s. (ok unavailable, suc s);
  unmarshal = λ bytes. pure [];
  decimal = λ status. "503";
  exponential_backoff = retry;
  images = record { command = λ args. pure ("", none); trim_space = λ text. text };
}

abbrev Requests : Trying ℕ → ℕ → Action (Trying ℕ) Bool → Trying ℕ → Type 0
Requests t steps condition u = (k : ℕ) × (k ≤ steps) × Ran (λ s. s) condition t k u

-- one more run in front
prepend_run :
    (condition : Action (Trying ℕ) Bool) (t u : Trying ℕ) (k : ℕ)
    → Ran (λ s. s) condition (condition t).1 k u
    → Ran (λ s. s) condition t (suc k) u
prepend_run condition t u k started = ran started
prepend_run condition t u k (Ran.waited before u' same) =
    Ran.waited (prepend_run condition t _ k before) u' same
prepend_run condition t u k (ran before) = ran (prepend_run condition t _ _ before)

after-Requests :
    (condition : Action (Trying ℕ) Bool) (t : Trying ℕ) (steps : ℕ) (b : Outcome Bool)
    → Requests (condition t).1 steps condition (retry steps condition (condition t).1).1
    → Requests t (suc steps) condition (after (b, (condition t).1) (retry steps condition)).1
after-Requests condition t steps (ok true) rest = (1, omega arith, ran started)
after-Requests condition t steps (ok false) (k, few, runs) =
    (suc k, omega arith, prepend_run condition t _ k runs)
after-Requests condition t steps (err e) rest = (1, omega arith, ran started)
after-Requests condition t steps panic rest = (1, omega arith, ran started)

retry-Requests :
    (steps : ℕ) (condition : Action (Trying ℕ) Bool) (t : Trying ℕ)
    → Requests t steps condition (retry steps condition t).1
retry-Requests zero condition t = (0, omega arith, started)
retry-Requests (suc steps) condition t =
    after-Requests condition t steps (condition t).0
      (retry-Requests steps condition (condition t).1)

busy-Counts : Counts busy (λ s. s)
busy-Counts = record {
  new_request = λ url s. omega arith;
  send = λ client req s. omega arith;
  response = λ client req s resp e u.
      let same : unavailable ≡ resp = cc in rw⁻¹ same (omega arith, omega arith);
  unmarshal = λ bytes s. omega arith;
  backoff = retry-Requests;
}

do_checkpoint_with_backoff-requests_example :
    (do_checkpoint_with_backoff busy 8 "https://node-a:10250/checkpoint/shop/web/app" 2).1 ≤ 2 + 5
do_checkpoint_with_backoff-requests_example =
    do_checkpoint_with_backoff-requests busy (λ s. s) 8
      "https://node-a:10250/checkpoint/shop/web/app" 2 busy-Counts
