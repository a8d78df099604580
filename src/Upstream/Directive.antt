-- ===== src/Upstream/Directive.antt =====
-- ngx_http_upstream_ip_hash and ngx_http_upstream_least_conn: the handlers of the directives that
-- choose a balancer.
use inside_nginx.Base.{Bool, true, false, Option, none, some, List, [], ◌∷◌}
use inside_nginx.Upstream.Init.{Balancer, ip_hash, least_conn}

-- The flags of an upstream: what its servers may say.
pub data Flag : Type 0 where
  create_flag weight_flag max_conns_flag max_fails_flag fail_timeout_flag down_flag backup_flag :
      Flag

-- The fields of ngx_http_upstream_srv_conf_t that the handlers write; `init_upstream` is the balancer
-- whose function `peer.init_upstream` points to.
pub record Directives : Type 0 where
  pub init_upstream : Option Balancer
  pub flags : List Flag

-- Whether a balancer was chosen before, which is logged as a warning.
unfoldable pub is_redefined : Directives → Bool
is_redefined d = elim d.init_upstream [ none ↦ false | some b ↦ true ]

-- ngx_http_upstream_ip_hash: whether it warns, and the upstream.
unfoldable pub set_ip_hash : Directives → Bool × Directives
set_ip_hash d = (
  is_redefined d,
  record d {
    init_upstream = some ip_hash;
    flags =
        create_flag ∷ weight_flag ∷ max_conns_flag ∷ max_fails_flag ∷ fail_timeout_flag ∷ down_flag
        ∷ [];
  },
)

-- ngx_http_upstream_least_conn
unfoldable pub set_least_conn : Directives → Bool × Directives
set_least_conn d = (
  is_redefined d,
  record d {
    init_upstream = some least_conn;
    flags =
        create_flag ∷ weight_flag ∷ max_conns_flag ∷ max_fails_flag ∷ fail_timeout_flag ∷ down_flag
        ∷ backup_flag ∷ [];
  },
)
