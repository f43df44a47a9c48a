-- ===== src/Signals/Keywords.antt =====
-- The table Keywords of internal/signals/signals.go. Go leaves the order of a map open; nothing that
-- reads the table depends on it.
use incident_investigator.Prelude.{String, Option, none, some, List, [], ◌∷◌}
use incident_investigator.Prelude.Dict.{Dict, lookup}

-- Keywords
unfoldable pub keyword_table : Dict (List String)
keyword_table =
    ("deployment", "deploy" ∷ "deployment" ∷ "release" ∷ "rollout" ∷ "ship" ∷ "canary" ∷ [])
    ∷ ("rollback", "rollback" ∷ "rolled back" ∷ "reverted" ∷ "roll back" ∷ [])
    ∷ (
      "recovery",
      "back to normal" ∷ "service recovered" ∷ "incident resolved" ∷ "fully restored" ∷ [],
    )
    ∷ (
      "database",
      "database" ∷ "postgres" ∷ "mysql" ∷ "sql" ∷ "connection pool" ∷ "db connection"
          ∷ "query timeout" ∷ "deadlock" ∷ "replica" ∷ "saturat" ∷ [],
    )
    ∷ (
      "config",
      "config" ∷ "configuration" ∷ "env var" ∷ "environment variable" ∷ "secret" ∷ "parameter"
          ∷ "configmap" ∷ [],
    )
    ∷ ("dns", "dns" ∷ "name resolution" ∷ "nxdomain" ∷ "resolve host" ∷ "could not resolve" ∷ [])
    ∷ (
      "network",
      "network" ∷ "packet loss" ∷ "connection refused" ∷ "connection reset" ∷ "unreachable" ∷ "tcp"
          ∷ "socket" ∷ [],
    )
    ∷ ("cert", "certificate" ∷ "tls" ∷ "ssl" ∷ "x509" ∷ "handshake" ∷ "expired cert" ∷ [])
    ∷ ("memory", "memory" ∷ "oom" ∷ "out of memory" ∷ "heap" ∷ "leak" ∷ "rss" ∷ [])
    ∷ (
      "retry",
      "retry" ∷ "retries" ∷ "retrying" ∷ "thundering herd" ∷ "retry storm" ∷ "retry budget" ∷ [],
    )
    ∷ (
      "restart",
      "restart" ∷ "crashloop" ∷ "crashloopbackoff" ∷ "oomkilled" ∷ "killed" ∷ "evicted" ∷ "reboot"
          ∷ [],
    )
    ∷ ("latency", "latency" ∷ "slow" ∷ "p99" ∷ "p95" ∷ "timeout" ∷ "timed out" ∷ "degraded" ∷ [])
    ∷ (
      "error",
      "error" ∷ "errors" ∷ "500" ∷ "503" ∷ "502" ∷ "5xx" ∷ "exception" ∷ "failed" ∷ "failure"
          ∷ "panic" ∷ [],
    )
    ∷ (
      "dependency",
      "downstream" ∷ "upstream" ∷ "dependency" ∷ "depends on" ∷ "caller timeout"
          ∷ "service unavailable" ∷ [],
    )
    ∷ (
      "external",
      "third-party" ∷ "third party" ∷ "vendor" ∷ "saas" ∷ "external service" ∷ "status page"
          ∷ "provider outage" ∷ [],
    )
    ∷ (
      "auth",
      "oauth" ∷ "jwt" ∷ "iam" ∷ "ldap" ∷ "rbac" ∷ "unauthorized" ∷ "401" ∷ "403" ∷ "token expired"
          ∷ "authentication failed" ∷ [],
    )
    ∷ (
      "human",
      "manual" ∷ "operator" ∷ "runbook" ∷ "human error" ∷ "mistake" ∷ "wrong command"
          ∷ "manual change" ∷ [],
    )
    ∷ (
      "capacity",
      "autoscaling" ∷ "auto-scaling" ∷ "traffic spike" ∷ "quota exceeded" ∷ "scaling delayed"
          ∷ "throttl" ∷ [],
    )
    ∷ (
      "security",
      "unauthorized access" ∷ "breach" ∷ "compromise" ∷ "exploit" ∷ "intrusion" ∷ "credential leak"
          ∷ [],
    )
    ∷ (
      "performance",
      "regression" ∷ "latency regression" ∷ "slower than baseline" ∷ "performance degraded" ∷ [],
    )
    ∷ (
      "infrastructure",
      "hypervisor" ∷ "cloud event" ∷ "node unavailable" ∷ "node failure" ∷ "hardware alert"
          ∷ "instance reboot" ∷ "host failure" ∷ "bare metal" ∷ [],
    )
    ∷ (
      "kubernetes",
      "kubernetes" ∷ "k8s" ∷ "kubelet" ∷ "scheduler" ∷ "readiness probe" ∷ "liveness probe"
          ∷ "pending pod" ∷ "replicaset" ∷ [],
    )
    ∷ (
      "container",
      "container" ∷ "docker" ∷ "oci runtime" ∷ "image pull" ∷ "pull image" ∷ "registry unreachable"
          ∷ "containerd" ∷ [],
    )
    ∷ (
      "storage",
      "storage" ∷ "ebs" ∷ "pvc" ∷ "disk full" ∷ "mount failed" ∷ "iops" ∷ "san" ∷ "nas"
          ∷ "volume attach" ∷ [],
    )
    ∷ (
      "cache",
      "redis" ∷ "memcached" ∷ "cache miss" ∷ "cache stampede" ∷ "hit ratio" ∷ "cache unavailable"
          ∷ "cache eviction" ∷ [],
    )
    ∷ (
      "messaging",
      "kafka" ∷ "rabbitmq" ∷ "sqs" ∷ "pulsar" ∷ "consumer lag" ∷ "queue buildup" ∷ "poison message"
          ∷ "message queue" ∷ [],
    )
    ∷ (
      "loadbalancer",
      "load balancer" ∷ "envoy" ∷ "nginx" ∷ "alb" ∷ "haproxy" ∷ "proxy failure"
          ∷ "health check failed" ∷ "backend unhealthy" ∷ [],
    )
    ∷ (
      "apicontract",
      "schema change" ∷ "breaking change" ∷ "version mismatch" ∷ "serialization error"
          ∷ "deserialization" ∷ "invalid payload" ∷ [],
    )
    ∷ (
      "datacorruption",
      "corruption" ∷ "checksum mismatch" ∷ "partial write" ∷ "data integrity" ∷ "corrupted data"
          ∷ [],
    )
    ∷ ("clock", "ntp" ∷ "clock drift" ∷ "time skew" ∷ "skewed clock" ∷ "time sync" ∷ [])
    ∷ (
      "featureflag",
      "feature flag" ∷ "flag rollout" ∷ "flag enabled" ∷ "launchdarkly" ∷ "gradual rollout"
          ∷ "flag disabled" ∷ [],
    )
    ∷ (
      "regional",
      "availability zone" ∷ "az failure" ∷ "zone failure" ∷ "region outage" ∷ "regional failure"
          ∷ "single region" ∷ [],
    )
    ∷ (
      "dr",
      "failover" ∷ "disaster recovery" ∷ "split brain" ∷ "dr drill" ∷ "recovery incomplete"
          ∷ "failover failed" ∷ [],
    )
    ∷ (
      "observability",
      "missing metrics" ∷ "missing logs" ∷ "missing traces" ∷ "blind spot" ∷ "agent down"
          ∷ "observability gap" ∷ "sampling dropped" ∷ [],
    )
    ∷ []

abbrev pub words_or_none : Option (List String) → List String
words_or_none none = []
words_or_none (some words) = words

-- Keywords[name]
unfoldable pub keywords_of : String → List String
unfolding keyword_table
keywords_of name = words_or_none (lookup name keyword_table)
