-- ===== src/AgentServer/Kubelet.antt =====
-- makeTLSClient and doCheckpointWithBackoff: the client of the kubelet and the call of its
-- checkpoint endpoint.
pub mod Files
pub mod Certificates
pub mod Tries
use live_pod_migration.Base.{
  ℕ, String, ◌<>◌, Bool, true, false, Option, none, some, List, [], ◌∷◌, if◌then◌else◌, leb, ◌||◌,
  not,
}
use live_pod_migration.Effect.{
  Action, Error, Outcome, ok, err, panic, wrap, new_error, pure, raise, attempt, ◌>>=◌, ◌>>◌,
  finally, maybe,
}
use live_pod_migration.AgentServer.Host.{HttpResponse, Trying, NodeCalls}

-- an element of `certPaths`
pub record CertPaths : Type 0 where
  pub cert : String
  pub key : String
  pub ca : String
  pub desc : String

abbrev pub cert_paths : List CertPaths
cert_paths =
    record {
      cert = "/var/lib/kubelet/pki/kubelet-client-current.pem";
      key = "/var/lib/kubelet/pki/kubelet-client-current.pem";
      ca = "/etc/kubernetes/pki/ca.crt";
      desc = "worker node (kubelet auto-generated)";
    }
    ∷ record {
      cert = "/etc/kubernetes/pki/apiserver-kubelet-client.crt";
      key = "/etc/kubernetes/pki/apiserver-kubelet-client.key";
      ca = "/etc/kubernetes/pki/ca.crt";
      desc = "master node (kubeadm generated)";
    }
    ∷ record {
      cert = "/etc/kubernetes/pki/apiserver-kubelet-client.crt";
      key = "/etc/kubernetes/pki/apiserver-kubelet-client.key";
      ca = "/var/lib/kubelet/pki/kubelet.crt";
      desc = "master node (alternative CA)";
    }
    ∷ []

-- The variables of the loop. `cert` is the zero certificate if `none`, `ca_bytes` is nil if "".
pub record Loaded : Type 0 where
  pub cert : Option ℕ
  pub ca_bytes : String
  pub error : Option Error
  pub working_paths : String

abbrev pub nothing_loaded : Loaded
nothing_loaded = record { cert = none; ca_bytes = ""; error = none; working_paths = "" }

module _ {S : Type 0} (n : NodeCalls S) where
  -- the three `os.Stat` of a round, each only if the one before found its file
  pub some_missing : CertPaths → Action S Bool
  some_missing p = n.not_exists p.cert >>= λ no_cert.
      if no_cert
      then pure true
      else n.not_exists p.key >>= λ no_key. if no_key then pure true else n.not_exists p.ca

  -- the loading of a round, where `next` is the rest of the loop and `break` leaves it
  pub load_pair : CertPaths → Loaded → (Loaded → Action S Loaded) → Action S Loaded
  load_pair p l next =
      attempt (n.load_key_pair p.cert p.key) (λ e. next (record l { cert = none; error = some e }))
        λ cert.
          attempt (n.read_file p.ca)
            (λ e. next (record l { cert = some cert; ca_bytes = ""; error = some e }))
            λ bytes. pure (record {
              cert = some cert;
              ca_bytes = bytes;
              error = none;
              working_paths =
                  p.desc <> " (cert=" <> p.cert <> ", key=" <> p.key <> ", ca=" <> p.ca <> ")";
            })

  pub load_first : List CertPaths → Loaded → Action S Loaded
  unfolding some_missing load_pair
  load_first [] l = pure l
  load_first (p ∷ paths) l = some_missing p >>= λ missing.
      if missing then load_first paths l else load_pair p l (load_first paths)

  -- what follows the loop; the zero certificate is written 0
  pub finish_client : Loaded → Action S ℕ
  finish_client l =
      maybe l.error
        (if n.has_certs l.ca_bytes
          then pure (n.http_client (maybe l.cert 0 (λ c. c)) l.ca_bytes)
          else raise (new_error ("failed to parse CA certificate from " <> l.working_paths)))
        (λ e. raise (wrap "failed to load client certificate from any known location: " e))

  unfoldable pub make_tls_client : Action S ℕ
  unfolding load_first finish_client
  make_tls_client = load_first cert_paths nothing_loaded >>= finish_client

  -- a call of the closure on the state outside
  abbrev outside : {A : Type 0} → Action S A → Action (Trying S) A
  outside m t = let (r, s) = m t.outer in (r, record t { outer = s })

  -- `lastErr = …; return false, nil`
  abbrev again : Error → Action (Trying S) Bool
  again e t = (ok false, record t { last_err = some e })

  -- `checkpointFiles = parsed.Items; return true, nil`
  pub accept : List String → Action (Trying S) Bool
  accept [] t = again (new_error "no checkpoint files returned by kubelet") t
  accept (f ∷ files) t = (ok true, record t { checkpoint_files = f ∷ files })

  -- a 2xx response, with what was read of its body
  pub parse_body : String × Option Error → Action (Trying S) Bool
  unfolding accept
  parse_body (bytes, some e) = again (wrap "failed to read response: " e)
  parse_body (bytes, none) =
      attempt (outside (n.unmarshal bytes))
        (λ e. again (wrap "failed to parse kubelet JSON response: " e)) accept

  -- the body of a response that is at hand
  pub read_response : HttpResponse S → Action (Trying S) Bool
  unfolding parse_body
  read_response resp = outside resp.read_all >>= λ body.
      if not (leb 200 resp.status) || leb 300 resp.status
      then again (new_error ("kubelet responded " <> n.decimal resp.status <> ": " <> body.0))
      else parse_body body

  -- the closure: the body is closed when it returns
  pub try_checkpoint : ℕ → String → Action (Trying S) Bool
  unfolding read_response
  try_checkpoint client url =
      attempt (outside (n.new_request url)) (λ e. again (wrap "failed to create request: " e))
        λ req.
          attempt (outside (n.send client req)) (λ e. again (wrap "kubelet request failed: " e))
            λ resp. finally (read_response resp) (outside resp.close)

  -- the end of the call, with `lastErr` wrapped as Go prints it, a nil one too
  pub retried : Outcome (Unit {0}) × Trying S → Outcome (List String) × S
  retried (ok _, t) = (ok t.checkpoint_files, t.outer)
  retried (err e, t) = (
    maybe t.last_err (err (new_error "checkpoint failed after retries: %!w(<nil>)"))
        (λ last. err (wrap "checkpoint failed after retries: " last)),
    t.outer,
  )
  retried (panic, t) = (panic, t.outer)

  unfoldable pub do_checkpoint_with_backoff : ℕ → String → Action S (List String)
  unfolding try_checkpoint retried
  do_checkpoint_with_backoff client url s = retried (
      n.exponential_backoff 5 (try_checkpoint client url)
        (record { outer = s; checkpoint_files = []; last_err = none }))
