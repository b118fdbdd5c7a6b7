-- ===== src/Safety/Tables/Paths.antt =====
-- internal/safety/guard.go: DefaultPathRules, entry by entry, execPath and dns1123.
use multi_agent_system_turbo.Base.{◌≡◌, refl, true, false, List, [], ◌∷◌, Str, bytes}
use multi_agent_system_turbo.Regexp.{
  Re, one_of, none_of, seq, star, lit, alts, seqs, some_of, maybe, matches,
}
use multi_agent_system_turbo.Safety.Effects.{PathRule}

-- `[^/]+`
abbrev pub segment : Re
segment = some_of (none_of ((47, 47) ∷ []))

abbrev get_rule : Re → Str → PathRule
get_rule pattern desc = record { method = bytes "GET"; pattern = pattern; description = desc }

abbrev post_rule : Re → Str → PathRule
post_rule pattern desc = record { method = bytes "POST"; pattern = pattern; description = desc }

unfoldable pub default_path_rules : List PathRule
default_path_rules =
    get_rule
      (seqs (
        lit (bytes "/api/v1/")
        ∷ alts (
            lit (bytes "query")
            ∷ lit (bytes "query_range")
            ∷ lit (bytes "series")
            ∷ lit (bytes "labels")
            ∷ lit (bytes "metadata")
            ∷ lit (bytes "targets")
            ∷ lit (bytes "rules")
            ∷ lit (bytes "alerts")
            ∷ seqs (lit (bytes "status/") ∷ some_of (one_of ((97, 122) ∷ (45, 45) ∷ [])) ∷ [])
            ∷ [])
        ∷ []))
      (bytes "Prometheus read API")
    ∷ get_rule (seqs (lit (bytes "/api/v1/label/") ∷ segment ∷ lit (bytes "/values") ∷ []))
        (bytes "Prometheus label values")
    ∷ post_rule
        (seqs (
          lit (bytes "/api/v1/")
          ∷ alts (lit (bytes "query") ∷ lit (bytes "query_range") ∷ lit (bytes "series") ∷ [])
          ∷ []))
        (bytes "Prometheus query via POST body")
    ∷ get_rule
        (seqs (lit (bytes "/-/") ∷ alts (lit (bytes "healthy") ∷ lit (bytes "ready") ∷ []) ∷ []))
        (bytes "Prometheus health")
    ∷ get_rule
        (seqs (
          lit (bytes "/loki/api/v1/")
          ∷ alts (
              lit (bytes "query")
              ∷ lit (bytes "query_range")
              ∷ lit (bytes "labels")
              ∷ lit (bytes "series")
              ∷ lit (bytes "index/stats")
              ∷ [])
          ∷ []))
        (bytes "Loki read API")
    ∷ get_rule (seqs (lit (bytes "/loki/api/v1/label/") ∷ segment ∷ lit (bytes "/values") ∷ []))
        (bytes "Loki label values")
    ∷ post_rule
        (seqs (
          lit (bytes "/loki/api/v1/")
          ∷ alts (lit (bytes "query") ∷ lit (bytes "query_range") ∷ [])
          ∷ []))
        (bytes "Loki query via POST body")
    ∷ get_rule
        (seqs (lit (bytes "/") ∷ alts (lit (bytes "ready") ∷ lit (bytes "metrics") ∷ []) ∷ []))
        (bytes "Loki health")
    ∷ get_rule
        (seqs (
          lit (bytes "/")
          ∷ alts (
              lit (bytes "version")
              ∷ lit (bytes "api")
              ∷ lit (bytes "apis")
              ∷ lit (bytes "healthz")
              ∷ lit (bytes "readyz")
              ∷ lit (bytes "livez")
              ∷ [])
          ∷ []))
        (bytes "Kubernetes discovery")
    ∷ get_rule
        (seqs (lit (bytes "/api/v1/nodes") ∷ maybe (seqs (lit (bytes "/") ∷ segment ∷ [])) ∷ []))
        (bytes "Kubernetes nodes")
    ∷ get_rule
        (seqs (
          lit (bytes "/api/v1/")
          ∷ alts (
              lit (bytes "events")
              ∷ lit (bytes "pods")
              ∷ lit (bytes "services")
              ∷ lit (bytes "endpoints")
              ∷ [])
          ∷ []))
        (bytes "Kubernetes cluster-wide list")
    ∷ get_rule
        (seqs
          (lit (bytes "/api/v1/namespaces") ∷ maybe (seqs (lit (bytes "/") ∷ segment ∷ [])) ∷ []))
        (bytes "Kubernetes namespaces")
    ∷ get_rule
        (seqs (
          lit (bytes "/api/v1/namespaces/")
          ∷ segment
          ∷ lit (bytes "/pods")
          ∷ maybe (seqs (lit (bytes "/") ∷ segment ∷ []))
          ∷ []))
        (bytes "Kubernetes pods")
    ∷ get_rule
        (seqs (
          lit (bytes "/api/v1/namespaces/")
          ∷ segment
          ∷ lit (bytes "/pods/")
          ∷ segment
          ∷ lit (bytes "/log")
          ∷ []))
        (bytes "Kubernetes pod logs")
    ∷ get_rule
        (seqs (
          lit (bytes "/api/v1/namespaces/")
          ∷ segment
          ∷ lit (bytes "/")
          ∷ alts (
              lit (bytes "events")
              ∷ lit (bytes "services")
              ∷ lit (bytes "endpoints")
              ∷ lit (bytes "configmaps")
              ∷ lit (bytes "persistentvolumeclaims")
              ∷ lit (bytes "replicationcontrollers")
              ∷ [])
          ∷ maybe (seqs (lit (bytes "/") ∷ segment ∷ []))
          ∷ []))
        (bytes "Kubernetes namespaced reads")
    ∷ get_rule
        (seqs (
          lit (bytes "/apis/apps/v1/namespaces/")
          ∷ segment
          ∷ lit (bytes "/")
          ∷ alts (
              lit (bytes "deployments")
              ∷ lit (bytes "statefulsets")
              ∷ lit (bytes "daemonsets")
              ∷ lit (bytes "replicasets")
              ∷ [])
          ∷ maybe (seqs (lit (bytes "/") ∷ segment ∷ []))
          ∷ []))
        (bytes "Kubernetes workloads")
    ∷ get_rule
        (seqs (
          lit (bytes "/apis/discovery.k8s.io/v1/namespaces/")
          ∷ segment
          ∷ lit (bytes "/endpointslices")
          ∷ maybe (seqs (lit (bytes "/") ∷ segment ∷ []))
          ∷ []))
        (bytes "Kubernetes endpoint slices")
    ∷ get_rule
        (seqs (
          lit (bytes "/apis/metrics.k8s.io/v1beta1/")
          ∷ alts (lit (bytes "nodes") ∷ lit (bytes "pods") ∷ [])
          ∷ maybe (seqs (lit (bytes "/") ∷ segment ∷ []))
          ∷ []))
        (bytes "Kubernetes resource metrics")
    ∷ get_rule
        (seqs (
          lit (bytes "/apis/metrics.k8s.io/v1beta1/namespaces/")
          ∷ segment
          ∷ lit (bytes "/pods")
          ∷ maybe (seqs (lit (bytes "/") ∷ segment ∷ []))
          ∷ []))
        (bytes "Kubernetes pod metrics")
    ∷ []

-- `^/api/v1/namespaces/[^/]+/pods/[^/]+/exec$`
unfoldable pub exec_path : Re
exec_path = seqs (
    lit (bytes "/api/v1/namespaces/")
    ∷ segment
    ∷ lit (bytes "/pods/")
    ∷ segment
    ∷ lit (bytes "/exec")
    ∷ [])

-- `^[a-z0-9]([-a-z0-9.]*[a-z0-9])?$`
unfoldable pub dns1123 : Re
dns1123 = seq (one_of ((97, 122) ∷ (48, 57) ∷ [])) (
    maybe (
      seq (star (one_of ((45, 45) ∷ (97, 122) ∷ (48, 57) ∷ (46, 46) ∷ [])))
        (one_of ((97, 122) ∷ (48, 57) ∷ []))))

dns1123_tests :
    (matches dns1123 (bytes "redis-0.x") ≡ true) × (matches dns1123 (bytes "redis-") ≡ false)
unfolding dns1123 matches
dns1123_tests = (refl, refl)
