-- ===== src/Dispatch.antt =====
-- The choice of a repository task for a labelled issue, internal/dispatcher/predicate.go.
pub mod Laws
pub mod Waits
pub mod Wakes
mod Examples
use signal_plane.Base.{
  suc, String, Bool, true, false, not, ◌&&◌, ◌||◌, List, [], ◌∷◌, Option, none, some, ◌==◌, ◌<>◌,
  if◌then◌else◌, ◌^^◌, decimal,
}
use signal_plane.Base.Int.{ℤ, pos, negsuc, leb_ℤ, pos_part}
use signal_plane.Ingress.{Signal}

-- RepositoryTaskRoute of internal/config/config.go
pub record TaskRoute : Type 0 where
  pub id : String
  pub repository : String
  pub event : String
  pub action : String
  pub label : String
  pub profile : String

-- The fields of the payload that are decoded; `has_pull_request` says that the raw member is there.
pub record IssueEvent : Type 0 where
  pub action : String
  pub full_name : String
  pub number : ℤ
  pub state : String
  pub has_pull_request : Bool
  pub label : String
  pub login : String

pub record TaskCandidate : Type 0 where
  pub repository : String
  pub issue_number : ℤ
  pub delivery_id : String
  pub route_id : String
  pub profile : String

-- %d
abbrev pub signed : ℤ → String
signed (pos n) = decimal n
signed (negsuc n) = "-" ^^ decimal (suc n)

-- `Candidate.SemanticKey`
abbrev pub semantic_key : TaskCandidate → String
semantic_key c =
    "repository-task:v1:" ^^ c.route_id ^^ ":" ^^ c.repository ^^ ":issue:" ^^ signed c.issue_number

-- The second result, a word for each.
pub data Verdict : Type 0 where
  event_filtered missing_delivery_id invalid_payload issue_filtered ambiguous_route : Verdict
  route_filtered accepted : Verdict

abbrev pub no_candidate : TaskCandidate
no_candidate = record {
  repository = "";
  issue_number = pos 0;
  delivery_id = "";
  route_id = "";
  profile = "";
}

abbrev pub applies : Signal → IssueEvent → TaskRoute → Bool
applies signal event route =
    event.full_name == route.repository
    && signal.meta.source_event == route.event
    && event.action == route.action
    && event.label == route.label

-- The loop over the routes with `matched` so far; `none` is an ambiguous match.
unfoldable pub sole_route :
    (TaskRoute → Bool) → Option TaskRoute → List TaskRoute → Option (Option TaskRoute)
sole_route p matched [] = some matched
sole_route p none (route ∷ rest) =
    let with = sole_route p (some route) rest in
    let without = sole_route p none rest in if p route then with else without
sole_route p (some first) (route ∷ rest) =
    let without = sole_route p (some first) rest in if p route then none else without

abbrev pub candidate_for : Signal → IssueEvent → TaskRoute → TaskCandidate
candidate_for signal event route = record {
  repository = event.full_name;
  issue_number = event.number;
  delivery_id = signal.meta.source_delivery_id;
  route_id = route.id;
  profile = route.profile;
}

abbrev pub matched_route : Signal → IssueEvent → Option (Option TaskRoute) → TaskCandidate × Verdict
matched_route signal event none = (no_candidate, ambiguous_route)
matched_route signal event (some none) = (no_candidate, route_filtered)
matched_route signal event (some (some route)) = (candidate_for signal event route, accepted)

abbrev pub is_open_issue : IssueEvent → Bool
is_open_issue event = not (
    leb_ℤ event.number (pos 0)
    || event.state <> "open"
    || event.has_pull_request
    || event.login == "")

unfoldable pub select_route : Signal → List TaskRoute → Option IssueEvent → TaskCandidate × Verdict
unfolding sole_route
select_route signal routes none = (no_candidate, invalid_payload)
select_route signal routes (some event) =
    if is_open_issue event
    then matched_route signal event (sole_route (applies signal event) none routes)
    else (no_candidate, issue_filtered)

-- `Select`; `decode` is json.Unmarshal into the fields above.
unfoldable pub select_task :
    (String → Option IssueEvent) → Signal → List TaskRoute → TaskCandidate × Verdict
unfolding select_route
select_task decode signal routes =
    if signal.meta.source <> "github"
      || signal.meta.source_event <> "issues"
      || signal.meta.source_action <> "labeled"
    then (no_candidate, event_filtered)
    else (if signal.meta.source_delivery_id == ""
        then (no_candidate, missing_delivery_id)
        else select_route signal routes (decode signal.payload))
