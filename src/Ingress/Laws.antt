-- ===== src/Ingress/Laws.antt =====
-- What a normalized event is worth to the ledger.
use signal_plane.Base.{
  ℕ, String, ◌≡◌, sym, ap, true, false, Result, ok, arith, ◌==◌, ==→eq, ◌^^◌, ◌∙◌, subst,
  joined_there, longer, text_length, decimal, ◌<◌,
}
use signal_plane.Ledger.Model.{Event}
use signal_plane.Ledger.Admit.{lacks_identity}
use signal_plane.Ingress.{Signal, normalize, event_of, evidence, adapter_for}

scheme_there : 0 < text_length "jetstream://"
unfolding text_length
scheme_there = omega arith

prefix_there : 0 < text_length "sha256:"
unfolding text_length
prefix_there = omega arith

digest_there :
    (sha256_hex : String → String) (signal : Signal)
    → (("sha256:" ^^ sha256_hex signal.payload) == "") ≡ false
digest_there sha256_hex signal = joined_there "sha256:" (sha256_hex signal.payload) prefix_there

evidence_there : (stream : String) (sequence : ℕ) → (evidence stream sequence == "") ≡ false
evidence_there stream sequence = joined_there ("jetstream://" ^^ stream ^^ "/") (decimal sequence) (
    omega
      (arith, scheme_there, longer "jetstream://" stream, longer ("jetstream://" ^^ stream) "/"))

normalize-identity :
    (sha256_hex : String → String) (signal : Signal) (stream : String) (sequence : ℕ)
    (event : Event)
    → normalize sha256_hex signal stream sequence ≡ ok event
    → (event.source ≡ "github")
      × (signal.meta.authentication.verified ≡ true)
      × (lacks_identity event ≡ (event.source_delivery_id == ""))
unfolding normalize
normalize-identity sha256_hex signal stream sequence event h =
    let made : event_of sha256_hex signal stream sequence ≡ event = ground (arith, h) in
    (
      ap (λ (e : Event). e.source) (sym made)
          ∙ ==→eq signal.meta.source "github" (ground (arith, h)),
      ground (arith, h),
      subst (λ e. lacks_identity e ≡ (e.source_delivery_id == "")) made
          (ground (arith, h, digest_there sha256_hex signal, evidence_there stream sequence)),
    )

-- An event that the adapter of any source makes comes from a verified GitHub delivery, and lacks the
-- identity that admission wants exactly when its delivery id is empty.
pub adapter-identity :
    (sha256_hex : String → String) (source : String) (signal : Signal) (stream : String)
    (sequence : ℕ) (adapter : Signal → String → ℕ → Result Event) (event : Event)
    → adapter_for sha256_hex source ≡ ok adapter
    → adapter signal stream sequence ≡ ok event
    → (source ≡ "github")
      × (event.source ≡ source)
      × (signal.meta.authentication.verified ≡ true)
      × (lacks_identity event ≡ (event.source_delivery_id == ""))
unfolding adapter_for
adapter-identity sha256_hex source signal stream sequence adapter event g h =
    let same : adapter ≡ normalize sha256_hex = ground (arith, g) in
    let made : normalize sha256_hex signal stream sequence ≡ ok event =
      ap (λ k. k signal stream sequence) (sym same) ∙ h in
    let github : source ≡ "github" = ==→eq source "github" (ground (arith, g)) in
    let (from, verified, identity) =
      normalize-identity sha256_hex signal stream sequence event made in
    (github, from ∙ sym github, verified, identity)
