-- ===== src/Main/Config.antt =====
-- append_routes and apply_default_config of src/main-sec-mod-cmd.c: the configuration of a client is
-- that of its user or group, with what this leaves open taken from the virtual host. A field that is
-- not set, or a NULL pointer, is `none`. Memory is taken to be there.
pub mod Routes
use ocserv_ppa.Base.{
  ℕ, ◌+◌, ◌%◌, ◌^◌, Bool, true, false, ◌&&◌, ◌||◌, not, List, [], ◌∷◌, ◌++◌, Option, none, some,
  ltb, leb, ◌==◌, if◌then◌else◌, length,
}
use ocserv_ppa.Base.Bytes.{bytes_eq}

-- `GroupCfgSt`. A port of the firewall is its number in the list of the protocol's values.
pub record GroupCfg : Type 0 where
  pub no_udp : Option Bool
  pub routes : Option (List (List ℕ))
  pub no_routes : Option (List (List ℕ))
  pub iroutes : List (List ℕ)
  pub dns : Option (List (List ℕ))
  pub nbns : Option (List (List ℕ))
  pub split_dns : Option (List (List ℕ))
  pub interim_update_secs : Option ℕ
  pub session_timeout_secs : Option ℕ
  pub deny_roaming : Option Bool
  pub ipv4_net : Option (List ℕ)
  pub ipv4_netmask : Option (List ℕ)
  pub ipv6_net : Option (List ℕ)
  pub ipv6_prefix : Option ℕ
  pub ipv6_subnet_prefix : Option ℕ
  pub cgroup : Option (List ℕ)
  pub xml_config_file : Option (List ℕ)
  pub rx_per_sec : Option ℕ
  pub tx_per_sec : Option ℕ
  pub net_priority : Option ℕ
  pub keepalive : Option ℕ
  pub dpd : Option ℕ
  pub mobile_dpd : Option ℕ
  pub max_same_clients : Option ℕ
  pub tunnel_all_dns : Option ℕ
  pub restrict_user_to_routes : Option Bool
  pub mtu : Option ℕ
  pub idle_timeout : Option ℕ
  pub mobile_idle_timeout : Option ℕ
  pub fw_ports : List ℕ

-- The configuration of a virtual host, as far as it is read for a client.
pub record VhostCfg : Type 0 where
  pub udp_port : ℕ
  pub routes : List (List ℕ)
  pub no_routes : List (List ℕ)
  pub dns : List (List ℕ)
  pub nbns : List (List ℕ)
  pub split_dns : List (List ℕ)
  pub known_iroutes : List (List ℕ)
  pub append_routes : Bool
  pub stats_report_time : ℕ
  pub session_timeout : ℕ
  pub deny_roaming : Bool
  pub ipv4_network : Option (List ℕ)
  pub ipv4_netmask : Option (List ℕ)
  pub ipv6_network : Option (List ℕ)
  pub ipv6_prefix : ℕ
  pub ipv6_subnet_prefix : ℕ
  pub cgroup : Option (List ℕ)
  pub xml_config_file : Option (List ℕ)
  pub rx_per_sec : ℕ
  pub tx_per_sec : ℕ
  pub net_priority : ℕ
  pub keepalive : ℕ
  pub dpd : ℕ
  pub mobile_dpd : ℕ
  pub max_same_clients : ℕ
  pub tunnel_all_dns : ℕ
  pub restrict_user_to_routes : Bool
  pub mtu : ℕ
  pub idle_timeout : ℕ
  pub mobile_idle_timeout : ℕ
  pub fw_ports : List ℕ
  pub stats_reset_time : ℕ

-- A repeated field of the client's configuration: NULL has no elements.
abbrev pub items : Option (List (List ℕ)) → List (List ℕ)
items none = []
items (some xs) = xs

-- `if (!has) gc->x = default`
abbrev pub or_default {ℓ} : {A : Type ℓ} → Option A → A → Option A
or_default none d = some d
or_default (some a) d = some a

-- `if (!gc->x) gc->x = default`, for pointers.
abbrev pub or_pointer {ℓ} : {A : Type ℓ} → Option A → Option A → Option A
or_pointer none d = d
or_pointer (some a) d = some a

-- The loop over `gc->iroutes`: whether the route is not one of the client's own.
unfoldable pub to_append : List (List ℕ) → List ℕ → Bool
to_append [] route = true
to_append (own ∷ iroutes) route = not (bytes_eq own route) && to_append iroutes route

-- The loop over `known_iroutes`; `routes` is what was put into `gc->routes` before.
unfoldable pub append_iroutes : List (List ℕ) → List (List ℕ) → List (List ℕ) → List (List ℕ)
append_iroutes iroutes [] routes = routes
append_iroutes iroutes (route ∷ known) routes =
    append_iroutes iroutes known
      (if to_append iroutes route then routes ++ (route ∷ []) else routes)

-- The array that the routes are copied to has room for so many.
pub routes_room : VhostCfg → GroupCfg → ℕ
routes_room vhost gc =
    length (items gc.routes)
    + (length vhost.known_iroutes + (if vhost.append_routes then length vhost.routes else 0))

unfoldable pub append_routes : VhostCfg → GroupCfg → GroupCfg
append_routes vhost gc =
    let known = append_iroutes gc.iroutes vhost.known_iroutes (items gc.routes) in
    if ltb 0 (length vhost.known_iroutes) || vhost.append_routes
    then if vhost.append_routes
      then record gc {
        routes = some (known ++ vhost.routes);
        no_routes =
            if length vhost.no_routes == 0
            then gc.no_routes
            else some (items gc.no_routes ++ vhost.no_routes);
      }
      else record gc { routes = some known }
    else gc

-- Before `append_routes`.
abbrev pub with_routes : VhostCfg → GroupCfg → GroupCfg
with_routes vhost gc = record gc {
  no_udp = or_default gc.no_udp (vhost.udp_port == 0);
  routes = or_default gc.routes vhost.routes;
}

-- After it. The count of the users of the configuration is the caller's.
unfoldable pub with_defaults : VhostCfg → GroupCfg → GroupCfg
with_defaults vhost gc = record gc {
  no_routes = or_default gc.no_routes vhost.no_routes;
  dns = or_default gc.dns vhost.dns;
  nbns = or_default gc.nbns vhost.nbns;
  split_dns = or_default gc.split_dns vhost.split_dns;
  interim_update_secs = or_default gc.interim_update_secs vhost.stats_report_time;
  session_timeout_secs = or_default gc.session_timeout_secs vhost.session_timeout;
  deny_roaming = or_default gc.deny_roaming vhost.deny_roaming;
  ipv4_net = or_pointer gc.ipv4_net vhost.ipv4_network;
  ipv4_netmask = or_pointer gc.ipv4_netmask vhost.ipv4_netmask;
  ipv6_net = or_pointer gc.ipv6_net vhost.ipv6_network;
  ipv6_prefix = or_default gc.ipv6_prefix vhost.ipv6_prefix;
  ipv6_subnet_prefix = or_default gc.ipv6_subnet_prefix vhost.ipv6_subnet_prefix;
  cgroup = or_pointer gc.cgroup vhost.cgroup;
  xml_config_file = or_pointer gc.xml_config_file vhost.xml_config_file;
  rx_per_sec = or_default gc.rx_per_sec vhost.rx_per_sec;
  tx_per_sec = or_default gc.tx_per_sec vhost.tx_per_sec;
  net_priority = or_default gc.net_priority vhost.net_priority;
  keepalive = or_default gc.keepalive vhost.keepalive;
  dpd = or_default gc.dpd vhost.dpd;
  mobile_dpd = or_default gc.mobile_dpd vhost.mobile_dpd;
  max_same_clients = or_default gc.max_same_clients vhost.max_same_clients;
  tunnel_all_dns = or_default gc.tunnel_all_dns vhost.tunnel_all_dns;
  restrict_user_to_routes = or_default gc.restrict_user_to_routes vhost.restrict_user_to_routes;
  mtu = or_default gc.mtu vhost.mtu;
  idle_timeout = or_default gc.idle_timeout vhost.idle_timeout;
  mobile_idle_timeout = or_default gc.mobile_idle_timeout vhost.mobile_idle_timeout;
  fw_ports =
      if length gc.fw_ports == 0 && ltb 0 (length vhost.fw_ports)
      then vhost.fw_ports
      else gc.fw_ports;
}

unfoldable pub apply_default_config : VhostCfg → GroupCfg → GroupCfg
apply_default_config vhost gc = with_defaults vhost (append_routes vhost (with_routes vhost gc))
