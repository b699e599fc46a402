-- ===== src/AgentServer/Kubelet/Certificates.antt =====
-- makeTLSClient on a node without certificates.
use live_pod_migration.Base.{String, ◌≡◌, refl, true, false}
use live_pod_migration.Effect.{ok, err, new_error}
use live_pod_migration.AgentServer.Host.{NodeCalls}
use live_pod_migration.AgentServer.Kubelet.{
  some_missing, load_first, finish_client, make_tls_client,
}

-- If none of the files exists and no certificate is parsed from no bytes, the error is that of a
-- certificate of an authority that cannot be parsed, with an empty list of paths.
pub make_tls_client-no_files :
    {S : Type 0} (n : NodeCalls S) (s : S)
    → ((path : String) → n.not_exists path s ≡ (ok true, s))
    → n.has_certs "" ≡ false
    → make_tls_client n s ≡ (err (new_error "failed to parse CA certificate from "), s)
unfolding make_tls_client load_first some_missing finish_client
make_tls_client-no_files n s missing no_certs =
    rw missing (rw missing (rw missing (rw no_certs refl)))
