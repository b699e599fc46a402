-- ===== src/AgentServer/Host.antt =====
-- What the agent's server calls on its node: files, TLS, the kubelet, buildah and the clock, as
-- operations on an unknown state `S`. Certificates, clients and open files are known by a number.
use live_pod_migration.Base.{ℕ, String, Bool, Option, List}
use live_pod_migration.Effect.{Action, Error}

-- an `http.Response`; `io.ReadAll` gives what it read even when it fails
pub record HttpResponse (S : Type 0) : Type 0 where
  pub status : ℕ
  pub read_all : Action S (String × Option Error)
  pub close : Action S (Unit {0})

-- the state while the closure of the backoff runs: the variables that it captures are in it
pub record Trying (S : Type 0) : Type 0 where
  pub outer : S
  pub checkpoint_files : List String
  pub last_err : Option Error

pub record Buildah (S : Type 0) : Type 0 where
  -- `buildah --root /var/lib/containers/storage` with arguments, its combined output and its error
  pub command : List String → Action S (String × Option Error)
  -- `strings.TrimSpace`
  pub trim_space : String → String

pub record Files (S : Type 0) : Type 0 where
  pub open_file : String → Action S ℕ
  pub create_file : String → Action S ℕ
  -- `io.Copy`, to the first
  pub copy : ℕ → ℕ → Action S (Unit {0})
  pub sync : ℕ → Action S (Unit {0})
  pub close_file : ℕ → Action S (Unit {0})
  -- `filepath.Join`
  pub join : String → String → String
  -- `time.Now().Format("20060102-150405")`
  pub timestamp : Action S String

pub record NodeCalls (S : Type 0) : Type 0 where
  pub mkdir_all : String → Action S (Unit {0})
  -- `_, err := os.Stat(path); os.IsNotExist(err)`
  pub not_exists : String → Action S Bool
  pub read_file : String → Action S String
  pub files : Files S
  pub load_key_pair : String → String → Action S ℕ
  -- `AppendCertsFromPEM` on a new pool
  pub has_certs : String → Bool
  -- the client of a certificate and the bytes of the authority
  pub http_client : ℕ → String → ℕ
  -- `http.NewRequestWithContext` of a POST to the URL
  pub new_request : String → Action S ℕ
  -- `httpClient.Do`
  pub send : ℕ → ℕ → Action S (HttpResponse S)
  -- `json.Unmarshal`: the `items`
  pub unmarshal : String → Action S (List String)
  -- `%d`
  pub decimal : ℕ → String
  -- `wait.ExponentialBackoff` with so many steps, from `checkpointBackoffInitial` on
  pub exponential_backoff : ℕ → Action (Trying S) Bool → Action (Trying S) (Unit {0})
  pub images : Buildah S
