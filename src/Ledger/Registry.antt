-- ===== src/Ledger/Registry.antt =====
-- Registry, internal/workledger/registry.go: the map of the registered executors, as the list of
-- their descriptors. What an executor runs is not the ledger's. The mutex makes each call atomic.
use signal_plane.Base.{
  String, List, [], ◌∷◌, Option, Result, ok, failure, ◌>>=◌, ◌>>◌, refuse, or_error, find, exists,
  ◌==◌,
}
use signal_plane.Ledger.Model.{ExecutorDescriptor}
use signal_plane.Ledger.Validate.{validate_descriptor}

abbrev pub Registry : Type 0
Registry = List ExecutorDescriptor

abbrev pub new_registry : Registry
new_registry = []

-- `none` is a nil Executor.
unfoldable pub register : Registry → Option ExecutorDescriptor → Result Registry
unfolding exists
register registry executor = do
  descriptor ← or_error executor (failure "executor is required")
  validate_descriptor descriptor
  refuse (exists (λ d. d.id == descriptor.id) registry) "executor is already registered"
  ok (descriptor ∷ registry)

unfoldable pub resolve : Registry → String → Result ExecutorDescriptor
unfolding find
resolve registry id =
    or_error (find (λ d. d.id == id) registry) (failure "executor is not registered")
