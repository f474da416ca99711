-- ===== src/Dispatch/Laws.antt =====
-- Which task is selected.
use signal_plane.Base.{
  ==→eq, String, ◌≡◌, refl, sym, ap, ◌∙◌, Bool, true, false, List, [], ◌∷◌, Option, none, some,
  Memᴰ, arith, count, Bool-cases, inl, inr, ◌==◌,
}
use signal_plane.Ingress.{Signal}
use signal_plane.Dispatch.{
  TaskRoute, IssueEvent, TaskCandidate, accepted, applies, sole_route, candidate_for, is_open_issue,
  select_route, select_task, matched_route,
}

-- With a match already found, no further one is there.
sole_some :
    (p : TaskRoute → Bool) (first route : TaskRoute) (routes : List TaskRoute)
    → sole_route p (some first) routes ≡ some (some route)
    → (first ≡ route) × (count p routes ≡ 0)
unfolding sole_route count
sole_some p first route [] h = (cc, refl)
sole_some p first route (next ∷ rest) h =
    let f : p next ≡ false = ground (arith, h) in
    let (same, none_else) = sole_some p first route rest (ground (arith, h, f)) in
    (same, ground (arith, f, none_else))

sole_none :
    (p : TaskRoute → Bool) (route : TaskRoute) (routes : List TaskRoute)
    → sole_route p none routes ≡ some (some route)
    → Memᴰ route routes × (p route ≡ true) × (count p routes ≡ 1)
unfolding sole_route count
sole_none p route [] h = absurd cc
sole_none p route (next ∷ rest) h = elim (Bool-cases (p next)) [
  | inl t ↦
      let (same, none_else) = sole_some p next route rest (ground (arith, h, t)) in
      (Memᴰ.head (sym same), sym (ap p same) ∙ t, ground (arith, t, none_else))
  | inr f ↦
      let (m, hit, once) = sole_none p route rest (ground (arith, h, f)) in
      (Memᴰ.tail m, hit, ground (arith, f, once))
]

-- What an accepted event was made of.
abbrev IsChosen : Signal → List TaskRoute → TaskCandidate → IssueEvent → Type 0
IsChosen signal routes candidate event =
    (is_open_issue event ≡ true)
    × (count (applies signal event) routes ≡ 1)
    × ((route : TaskRoute) × Memᴰ route routes
        × (applies signal event route ≡ true)
        × (candidate ≡ candidate_for signal event route))

matched_found :
    (signal : Signal) (event : IssueEvent) (found : Option (Option TaskRoute))
    (candidate : TaskCandidate)
    → matched_route signal event found ≡ (candidate, accepted)
    → (route : TaskRoute) × (found ≡ some (some route))
      × (candidate ≡ candidate_for signal event route)
matched_found signal event none candidate h = absurd (ground (arith, h))
matched_found signal event (some none) candidate h = absurd (ground (arith, h))
matched_found signal event (some (some route)) candidate h = (route, refl, ground (arith, h))

chosen :
    (signal : Signal) (routes : List TaskRoute) (decoded : Option IssueEvent)
    (candidate : TaskCandidate)
    → select_route signal routes decoded ≡ (candidate, accepted)
    → (event : IssueEvent) × (decoded ≡ some event) × IsChosen signal routes candidate event
unfolding select_route
chosen signal routes none candidate h = absurd (ground (arith, h))
chosen signal routes (some event) candidate h =
    let opened : is_open_issue event ≡ true = ground (arith, h) in
    let (route, found, made) =
      matched_found signal event (sole_route (applies signal event) none routes) candidate
        (ground (arith, opened, h)) in
    let (m, hit, once) = sole_none (applies signal event) route routes found in
    (event, refl, (opened, once, (route, m, hit, made)))

-- An accepted signal is a labelled GitHub issue event with a delivery id, whose payload decodes to
-- an open issue and not a pull request, and exactly one route applies to it: the candidate is made
-- of that route.
pub select_task_sole :
    (decode : String → Option IssueEvent) (signal : Signal) (routes : List TaskRoute)
    (candidate : TaskCandidate)
    → select_task decode signal routes ≡ (candidate, accepted)
    → (signal.meta.source ≡ "github")
      × (signal.meta.source_event ≡ "issues")
      × (signal.meta.source_action ≡ "labeled")
      × ((signal.meta.source_delivery_id == "") ≡ false)
      × ((event : IssueEvent) × (decode signal.payload ≡ some event)
          × (is_open_issue event ≡ true)
          × (count (applies signal event) routes ≡ 1)
          × ((route : TaskRoute) × Memᴰ route routes
              × (applies signal event route ≡ true)
              × (candidate ≡ candidate_for signal event route)))
unfolding select_task
select_task_sole decode signal routes candidate h =
    let named : (signal.meta.source_delivery_id == "") ≡ false = ground (arith, h) in
    let (event, decoded, facts) =
      chosen signal routes (decode signal.payload) candidate (ground (arith, named, h)) in
    let (opened, once, last) = facts in
    (
      ==→eq signal.meta.source "github" (ground (arith, h)),
      ==→eq signal.meta.source_event "issues" (ground (arith, h)),
      ==→eq signal.meta.source_action "labeled" (ground (arith, h)),
      named,
      (event, decoded, opened, once, last),
    )
