-- ===== src/Main/Config/Routes.antt =====
-- The routes that a client gets.
use ocserv_ppa.Base.{
  ℕ, ◌≤◌, ◌≡◌, refl, List, [], ◌∷◌, ◌++◌, if◌then◌else◌, length, length-append, arith, sym,
}
use mathlib.Core.List.{append-nil, append_assoc}
use ocserv_ppa.Main.Config.{
  GroupCfg, VhostCfg, items, or_default, to_append, append_iroutes, routes_room, append_routes,
  with_defaults, apply_default_config,
}

-- The routes of other clients that are announced to this one.
abbrev pub others : List (List ℕ) → List (List ℕ) → List (List ℕ)
others iroutes [] = []
others iroutes (route ∷ known) =
    if to_append iroutes route then route ∷ others iroutes known else others iroutes known

append_iroutes-others :
    (iroutes known routes : List (List ℕ))
    → append_iroutes iroutes known routes ≡ routes ++ others iroutes known
unfolding append_iroutes
append_iroutes-others iroutes [] routes = sym (append-nil routes)
append_iroutes-others iroutes (route ∷ known) routes =
    let routes' = if to_append iroutes route then routes ++ (route ∷ []) else routes in
    ground (
      arith,
      append_iroutes-others iroutes known routes',
      append_assoc routes (route ∷ []) (others iroutes known),
    )

length-others : (iroutes known : List (List ℕ)) → length (others iroutes known) ≤ length known
length-others iroutes [] = omega arith
length-others iroutes (route ∷ known) = ground (arith, length-others iroutes known)

others-none : (iroutes known : List (List ℕ)) → length known ≡ 0 → others iroutes known ≡ []
others-none iroutes [] h = refl
others-none iroutes (route ∷ known) h = absurd (omega arith)

-- `append_routes` writes no more routes than the array has room for.
pub append_routes-room :
    (vhost : VhostCfg) (gc : GroupCfg)
    → length (items (append_routes vhost gc).routes) ≤ routes_room vhost gc
unfolding append_routes routes_room
append_routes-room vhost gc = ground (
  arith,
  append_iroutes-others gc.iroutes vhost.known_iroutes (items gc.routes),
  length-append (items gc.routes) (others gc.iroutes vhost.known_iroutes),
  length-append (items gc.routes ++ others gc.iroutes vhost.known_iroutes) vhost.routes,
  length-others gc.iroutes vhost.known_iroutes,
)

-- The routes of a client are its own or else those of the virtual host, then the known routes of
-- other clients, then, with `append_routes`, those of the virtual host: also for a client that has
-- these in place of its own.
pub apply_default_config-routes :
    (vhost : VhostCfg) (gc : GroupCfg)
    → items (apply_default_config vhost gc).routes
      ≡ items (or_default gc.routes vhost.routes)
        ++ (others gc.iroutes vhost.known_iroutes
            ++ (if vhost.append_routes then vhost.routes else []))
unfolding append_routes apply_default_config with_defaults
apply_default_config-routes vhost gc =
    let own = items (or_default gc.routes vhost.routes) in
    let known = others gc.iroutes vhost.known_iroutes in
    ground (
      arith,
      append_iroutes-others gc.iroutes vhost.known_iroutes own,
      append_assoc own known vhost.routes,
      others-none gc.iroutes vhost.known_iroutes,
      append-nil known,
      append-nil own,
    )
