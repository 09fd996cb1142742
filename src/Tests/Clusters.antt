-- ===== src/Tests/Clusters.antt =====
-- internal/cluster/manager.go and internal/middleware/cluster.go at one configured cluster.
use capp_backend.Prelude.{◌≡◌, ◌↔◌, refl, some, [], ◌∷◌, ok}
use capp_backend.Clusters.{RestConfig, scoped_config}
use capp_backend.Clusters.Middleware.{
  holding, Scoped, cluster_middleware, Admitted, cluster_middleware_iff,
}
use capp_backend.Tests.Fixtures.{manager, base_config, caller, meta_of}

-- Clients that are the configs they are made of.
abbrev admitted : Scoped RestConfig
admitted = record {
  client = scoped_config base_config caller;
  admin_client = base_config;
  meta = meta_of "west" ("mall" ∷ []);
}

cluster_middleware_iff_example :
    (cluster_middleware (λ c. ok c) manager "west" "mall" (holding caller) ≡ ok (some admitted))
    ↔ Admitted (λ c. ok c) manager "west" "mall" (holding caller) admitted
cluster_middleware_iff_example =
    cluster_middleware_iff (λ c. ok c) manager "west" "mall" (holding caller) admitted refl
