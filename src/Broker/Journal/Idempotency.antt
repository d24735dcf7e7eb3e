-- ===== src/Broker/Journal/Idempotency.antt =====
-- What `prepare` of src/relay-broker/operation-journal.ts promises to a caller that repeats itself.
use deepseek_harness_relay_m.Base.{◌≡◌, true, some, string_eq}
use deepseek_harness_relay_m.Base.Map
use deepseek_harness_relay_m.Base.Map.{Map}
use deepseek_harness_relay_m.Base.Result.{Result}
use deepseek_harness_relay_m.Types.{OperationRecord}
use deepseek_harness_relay_m.Broker.Journal.{Journal, Request, fits, previous}

-- The operation of the request is known.
abbrev Known : Journal → Request → OperationRecord → Type 0
Known j q r = (previous j q ≡ some r) × (fits q r ≡ true)
