-- ===== src/Ledger/Routes/Activation.antt =====
-- Activating a route twice.
use signal_plane.Base.{
  String, ℕ, ◌*◌, sym, ◌≡◌, ap, subst, ◌∙◌, List, ◌∷◌, Option, none, some, Result, ok, arith, find,
  ◌==◌, ==_refl, Option-cases, inl, inr, >>=-eq-ok, refuse, ◌<>◌, ◌&&◌, ◌>>=◌, update,
}
use signal_plane.Ledger.Model.{Codec, RouteDefinition, RouteSnapshot, ExecutorDescriptor, millis}
use signal_plane.Ledger.Validate.{validate_route, validate_descriptor}
use signal_plane.Ledger.Registry.{Registry, resolve}
use signal_plane.Ledger.Store.{Db}
use signal_plane.Ledger.Routes.{
  is_current, activation_digest, new_snapshot, answered_at, place_route, retire, replace_route,
  save_route, activate_route,
}

-- The row that the second call looks for is the first one of the table.
found_first :
    (codec : Codec) (fresh : String) (d : RouteDefinition) (x : ExecutorDescriptor)
    (digest : String) (now : ℕ) (rows : List RouteSnapshot) {rows' : List RouteSnapshot}
    → replace_route now (new_snapshot codec fresh d x digest now) rows ≡ ok rows'
    → find (λ s. is_current d.id s && s.digest == digest) rows'
      ≡ some (new_snapshot codec fresh d x digest now)
unfolding replace_route find
found_first codec fresh d x digest now rows {rows'} h =
    let made : new_snapshot codec fresh d x digest now ∷ update (is_current d.id) (retire now) rows
        ≡ rows' =
      ground (arith, h) in
    subst
      (λ z.
        find (λ s. is_current d.id s && s.digest == digest) z
        ≡ some (new_snapshot codec fresh d x digest now))
      made (ground (arith, ==_refl d.id, ==_refl digest))

whole_millis : (a : ℕ) → millis (a * 1_000_000) ≡ a
whole_millis a = omega arith

-- What the second call reads of the answer to the first one.
abbrev reread : RouteSnapshot → RouteSnapshot
reread s = answered_at (millis s.activated_at * 1_000_000) s

-- After a call its row is found, whether it was made or there.
save_found :
    (codec : Codec) (fresh : String) (d : RouteDefinition) (x : ExecutorDescriptor)
    (digest : String) (now : ℕ) (db db' : Db) (s : RouteSnapshot)
    → place_route codec fresh d x digest now db ≡ ok (s, db')
    → (row : RouteSnapshot) × (find (λ z. is_current d.id z && z.digest == digest) db'.snapshots
        ≡ some row)
      × (answered_at (row.activated_at * 1_000_000) row ≡ reread s)
unfolding place_route
save_found codec fresh d x digest now db db' s h =
    elim (Option-cases (find (λ z. is_current d.id z && z.digest == digest) db.snapshots)) [
      | inl fresh_one ↦
          let row = new_snapshot codec fresh d x digest now in
          let call : List RouteSnapshot → Result (RouteSnapshot × Db) =
            λ rows. ok (answered_at now row, record db { snapshots = rows }) in
          let bound : (replace_route now row db.snapshots >>= call) ≡ ok (s, db') =
            ground (arith, h, fresh_one) in
          let (rows, put, e) = >>=-eq-ok (replace_route now row db.snapshots) call bound in
          let made : answered_at now row ≡ s = ground (arith, e) in
          let kept : rows ≡ db'.snapshots = ground (arith, e) in
          (
            row,
            subst (λ z. find (λ z. is_current d.id z && z.digest == digest) z ≡ some row) kept
                (found_first codec fresh d x digest now db.snapshots put),
            ap reread made,
          )
      | inr (existing, there) ↦
          let made : answered_at (existing.activated_at * 1_000_000) existing ≡ s =
            ground (arith, there, h) in
          let unchanged : db ≡ db' = ground (arith, there, h) in
          (
            existing,
            subst
                (λ (z : Db).
                  find (λ z. is_current d.id z && z.digest == digest) z.snapshots ≡ some existing)
                unchanged there,
            ap (λ a. answered_at (a * 1_000_000) existing)
                  (sym (whole_millis existing.activated_at))
                ∙ ap reread made,
          )
    ]

save_again :
    (codec : Codec) (fresh fresh' : String) (d : RouteDefinition) (x : ExecutorDescriptor)
    (now later : ℕ) (db db' : Db) (s : RouteSnapshot)
    → save_route codec fresh d x now db ≡ ok (s, db')
    → save_route codec fresh' d x later db' ≡ ok (reread s, db')
unfolding save_route activation_digest place_route
save_again codec fresh fresh' d x now later db db' s h =
    let (_, valid, h1) = >>=-eq-ok (validate_route d) _ h in
    let (_, same, h2) =
      >>=-eq-ok (refuse (d.executor_id <> x.id) "route executor does not match descriptor") _ h1 in
    let (_, described, h3) = >>=-eq-ok (validate_descriptor x) _ h2 in
    let (digest, digested, h4) = >>=-eq-ok (activation_digest codec d x) _ h3 in
    let hashed : digest ≡ codec.sha256_hex (codec.activation_json d x) =
      ground (arith, valid, described, digested) in
    let (row, current, answer) =
      save_found codec fresh d x (codec.sha256_hex (codec.activation_json d x)) now db db' s
        (subst (λ k. place_route codec fresh d x k now db ≡ ok (s, db')) hashed h4) in
    ground (arith, valid, same, described, current, answer)

-- An activation that succeeded may be repeated with the same definition and registry, at any time:
-- the second call changes nothing, and answers with the same snapshot, whose time of activation is
-- that of the first answer cut to milliseconds.
pub activate_route_twice :
    (codec : Codec) (fresh fresh' : String) (d : RouteDefinition) (registry : Option Registry)
    (now later : ℕ) (db db' : Db) (s : RouteSnapshot)
    → activate_route codec fresh d registry now db ≡ ok (s, db')
    → activate_route codec fresh' d registry later db'
      ≡ ok (record s { activated_at = millis s.activated_at * 1_000_000 }, db')
unfolding activate_route
activate_route_twice codec fresh fresh' d none now later db db' s h = absurd (ground (arith, h))
activate_route_twice codec fresh fresh' d (some executors) now later db db' s h =
    let (x, found, saved) = >>=-eq-ok (resolve executors d.executor_id) _ h in
    rw (found, save_again codec fresh fresh' d x now later db db' s saved)
