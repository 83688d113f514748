-- ===== src/Jobs/Service/Views.antt =====
-- What the service shows of the operation that the tables hold.
use acme_mux.Prelude.{
  ℕ, ◌*◌, ◌<◌, ◌/◌, ◌%◌, Bool, true, false, not, ◌≡◌, refl, ◌⊎◌, [], ◌∷◌, none, All, arith, length,
  ok, err, within,
}
use acme_mux.Prelude.Bytes.{Bytes}
use acme_mux.Jobs.Types.{
  State, Phase, InventoryState, zero_time, Operation, not_found, is_active, is_terminal, is_pending,
}
use acme_mux.Jobs.Validate.{validate_id, every, is_hex}
use acme_mux.Jobs.Database.{Tables}
use acme_mux.Jobs.Service.{hex_digit, encode_hex, service_status, service_latest}

-- What a browser is shown of an operation whose inventory is pending: that it runs and refreshes the
-- inventory, with its identifier and times, and nothing of its result and of its request.
abbrev pub HidesResult : Operation → Operation → Type 0
HidesResult o shown =
    (shown.id ≡ o.id)
    × (shown.kind ≡ o.kind)
    × (shown.state ≡ State.running)
    × (shown.phase ≡ Phase.refreshing_inventory)
    × (shown.requested_at ≡ o.requested_at)
    × (shown.started_at ≡ o.started_at)
    × (shown.updated_at ≡ o.updated_at)
    × (shown.finished_at ≡ zero_time)
    × (shown.code ≡ [])
    × (shown.may_have_changed ≡ false)
    × (shown.inventory.state ≡ InventoryState.pending)
    × (shown.inventory.code ≡ [])
    × (shown.inventory.certificate_count ≡ none)
    × (shown.output ≡ [])
    × (shown.output_truncated ≡ false)
    × (shown.items ≡ [])
    × (shown.request.items ≡ [])
    × (shown.request.details ≡ [])
    × (shown.request.reviewed_evidence_sha256 ≡ [])

-- Which of the two calls shows the operation, and that the other answers `ErrNotFound`.
abbrev pub ShownOnce : Tables → Operation → Type 0
ShownOnce t o =
    ((is_active o.state ≡ true)
      × (service_status [] t ≡ (ok o, t))
      × (service_latest [] t ≡ (err not_found, t)))
    ⊎ (((is_terminal o.state ≡ true)
          × (is_pending o.inventory.state ≡ true)
          × ((shown : Operation) × (service_status [] t ≡ (ok shown, t)) × HidesResult o shown)
          × (service_latest [] t ≡ (err not_found, t)))
        ⊎ ((is_terminal o.state ≡ true)
            × (is_pending o.inventory.state ≡ false)
            × (service_status [] t ≡ (err not_found, t))
            × (service_latest [] t ≡ (ok o, t))))

every_digit :
    (test : ℕ → Bool) (raw : Bytes)
    → ((d : ℕ) → d < 16 → test (hex_digit d) ≡ true)
    → All (λ b. b < 256) raw
    → every test (encode_hex raw) ≡ true
unfolding every encode_hex
every_digit test [] digits bytes = refl
every_digit test (b ∷ bs) digits (small, rest) =
    let high = digits (b / 16) (omega arith) in
    let low = digits (b % 16) (omega arith) in
    let more = every_digit test bs digits rest in ground arith

length-encode_hex : (raw : Bytes) → length (encode_hex raw) ≡ 2 * length raw
unfolding encode_hex
length-encode_hex [] = refl
length-encode_hex (b ∷ bs) = omega (arith, length-encode_hex bs)

-- Sixteen random bytes always give an identifier that the store accepts.
pub encode_hex_valid :
    (raw : Bytes) → length raw ≡ 16 → All (λ b. b < 256) raw → validate_id (encode_hex raw) ≡ true
unfolding validate_id
encode_hex_valid raw sixteen bytes =
    let size = length-encode_hex raw in
    let lower = every_digit (λ c. not (within b'A' b'Z' c)) raw (λ d h. ground arith) bytes in
    let hex = every_digit is_hex raw (λ d h. ground arith) bytes in
    let whole : length (encode_hex raw) ≡ 32 = omega arith in ground arith
