-- ===== src/Ingress/Routing/Laws.antt =====
-- What a resolver that was built resolves to.
use signal_plane.Base.{
  String, ◌≡◌, ◌≢◌, refl, sym, subst, Bool, true, false, List, [], ◌∷◌, Option, some, none, ok,
  Memᴰ, arith, find, find-mem, ◌==◌, ==→eq, eq→==, ==_refl, ==_false, >>=-eq-ok, ◌↔◌, inl, inr,
  Option-cases, ltb, text_length,
}
use signal_plane.Ledger.Model.{Event}
use signal_plane.Ledger.Agent.{
  validate_binding, validate_bound, is_zero, reject_admission_selection,
}
use signal_plane.Ledger.Patterns.{kebab_identifier, snake_identifier}
use signal_plane.Ingress.Routing.{
  RouteEntry, Config, check_entry, check_entries, validate_config, check_bound, check_declared,
  new_resolver, resolve_event, resolution, fact,
}

-- What the checks leave of an entry of the table.
pub record IsRoutable (declared : String → String → Bool) (route : RouteEntry) : Type 0 where
  pub has_snapshot : route.route_snapshot_id ≢ ""
  pub has_type : kebab_identifier route.agent_type ≡ true
  pub has_mode : snake_identifier route.mode ≡ true
  pub has_bound : ltb 256 (text_length route.contract_revision) ≡ false
  pub is_declared : declared route.agent_type route.mode ≡ true

checked_entry :
    (seen : List String) (routes : List RouteEntry) (route : RouteEntry)
    → check_entries seen routes ≡ ok tt
    → Memᴰ route routes
    → (kebab_identifier route.agent_type ≡ true)
      × (snake_identifier route.mode ≡ true)
      × (ltb 256 (text_length route.contract_revision) ≡ false)
unfolding check_entries check_entry
checked_entry seen [] route h m = elim m [ ]
checked_entry seen (first ∷ rest) route h (Memᴰ.head e) =
    subst
      (λ r.
        (kebab_identifier r.agent_type ≡ true)
        × (snake_identifier r.mode ≡ true)
        × (ltb 256 (text_length r.contract_revision) ≡ false))
      (sym e) (ground (arith, h), ground (arith, h), ground (arith, h))
checked_entry seen (first ∷ rest) route h (Memᴰ.tail m) =
    let (_, _, h1) = >>=-eq-ok (check_entry seen first) _ h in
    checked_entry (first.fact ∷ seen) rest route h1 m

bound_entry :
    (routes : List RouteEntry) (route : RouteEntry)
    → check_bound routes ≡ ok tt
    → Memᴰ route routes
    → route.route_snapshot_id ≢ ""
unfolding check_bound
bound_entry [] route h m = elim m [ ]
bound_entry (first ∷ rest) route h (Memᴰ.head e) =
    subst (λ (r : RouteEntry). r.route_snapshot_id ≢ "") (sym e)
      (λ q. ground (arith, h, eq→== first.route_snapshot_id "" q))
bound_entry (first ∷ rest) route h (Memᴰ.tail m) = bound_entry rest route (ground (arith, h)) m

declared_entry :
    (declared : String → String → Bool) (routes : List RouteEntry) (route : RouteEntry)
    → check_declared declared routes ≡ ok tt
    → Memᴰ route routes
    → declared route.agent_type route.mode ≡ true
unfolding check_declared
declared_entry declared [] route h m = elim m [ ]
declared_entry declared (first ∷ rest) route h (Memᴰ.head e) =
    subst (λ (r : RouteEntry). declared r.agent_type r.mode ≡ true) (sym e) (ground (arith, h))
declared_entry declared (first ∷ rest) route h (Memᴰ.tail m) =
    declared_entry declared rest route (ground (arith, h)) m

routable :
    (mentions : Config → String → Bool) (config : Config)
    (catalog : Option (String → String → Bool)) (table : List RouteEntry)
    → new_resolver mentions config catalog ≡ ok table
    → (table ≡ config.routes)
      × ((declared : String → String → Bool) × (catalog ≡ some declared)
          × ((route : RouteEntry) → Memᴰ route config.routes → IsRoutable declared route))
unfolding new_resolver validate_config
routable mentions config none table h = absurd (ground (arith, h))
routable mentions config (some declared) table h =
    let checked : check_entries [] config.routes ≡ ok tt = ground (arith, h) in
    let bound : check_bound config.routes ≡ ok tt = ground (arith, h) in
    let known : check_declared declared config.routes ≡ ok tt = ground (arith, h) in
    (
      ground (arith, h),
      (
        declared,
        refl,
        λ route m.
            let (kebab, snake, short) = checked_entry [] config.routes route checked m in
            record {
              has_snapshot = bound_entry config.routes route bound m;
              has_type = kebab;
              has_mode = snake;
              has_bound = short;
              is_declared = declared_entry declared config.routes route known m;
            },
      ),
    )

-- A resolver that was built resolves an event only by an entry of its config for the fact of the
-- event: the entry names a snapshot, and an agent type and mode that are well-formed and that the
-- catalog declares.
pub resolver_sound :
    (mentions : Config → String → Bool) (config : Config)
    (catalog : Option (String → String → Bool)) (table : List RouteEntry) (event : Event)
    → new_resolver mentions config catalog ≡ ok table
    → (resolve_event table event).matched ≡ true
    → (route : RouteEntry) × Memᴰ route config.routes
      × (route.fact ≡ fact event)
      × (resolve_event table event ≡ resolution route)
      × ((declared : String → String → Bool) × (catalog ≡ some declared)
          × IsRoutable declared route)
unfolding resolve_event
resolver_sound mentions config catalog table event h matched =
    let (same, rest) = routable mentions config catalog table h in
    let (declared, there, each) = rest in
    elim (Option-cases (find (λ route. route.fact == fact event) table)) [
      | inl none_found ↦ absurd (ground (arith, none_found, matched))
      | inr (route, found) ↦
          let (m, hit) = find-mem (λ route. route.fact == fact event) table route found in
          let listed_there = subst (λ z. Memᴰ route z) same m in
          (
            route,
            listed_there,
            ==→eq route.fact (fact event) hit,
            ground (arith, found),
            (declared, there, each route listed_there),
          )
    ]

no_name : kebab_identifier "" ≢ true
unfolding kebab_identifier
no_name h = cc

named_type : (name : String) → kebab_identifier name ≡ true → (name == "") ≡ false
named_type name h = ==_false name "" (λ e. no_name (subst (λ n. kebab_identifier n ≡ true) e h))

accepts :
    (declared : String → String → Bool) (route : RouteEntry)
    → IsRoutable declared route
    → (reject_admission_selection (resolution route).binding ≡ ok tt)
      × ((validate_binding (resolution route).binding ≡ ok tt) ↔ (route.contract_revision ≢ ""))
unfolding reject_admission_selection validate_binding is_zero validate_bound
accepts declared route good =
    let named = named_type route.agent_type good.has_type in
    (
      ground (arith, ==_refl ""),
      (
        λ h e. ground (arith, h, named, eq→== route.contract_revision "" e),
        λ there. ground (
          arith,
          named,
          good.has_type,
          good.has_mode,
          good.has_bound,
          ==_refl "",
          ==_false route.contract_revision "" there,
        ),
      ),
    )

-- The binding that a resolver that was built resolves an event to selects nothing that the broker
-- resolves, and the ledger's validation of bindings accepts it exactly when it has a contract
-- revision.
pub resolved_binding_iff :
    (mentions : Config → String → Bool) (config : Config)
    (catalog : Option (String → String → Bool)) (table : List RouteEntry) (event : Event)
    → new_resolver mentions config catalog ≡ ok table
    → (resolve_event table event).matched ≡ true
    → (reject_admission_selection (resolve_event table event).binding ≡ ok tt)
      × ((validate_binding (resolve_event table event).binding ≡ ok tt)
          ↔ ((resolve_event table event).binding.type_contract_revision ≢ ""))
resolved_binding_iff mentions config catalog table event h matched =
    let (route, _, _, same, rest) = resolver_sound mentions config catalog table event h matched in
    let (declared, _, good) = rest in
    subst
      (λ z.
        (reject_admission_selection z.binding ≡ ok tt)
        × ((validate_binding z.binding ≡ ok tt) ↔ (z.binding.type_contract_revision ≢ "")))
      (sym same) (accepts declared route good)
