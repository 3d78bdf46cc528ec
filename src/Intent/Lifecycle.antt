-- ===== src/Intent/Lifecycle.antt =====
-- The life of a durable intent: what the status relation allows over any number of writes.
use fedimint_wallets.Prelude.{◌≡◌, true}
use fedimint_wallets.Intent.{IntentStatus, transition_allowed}

-- One status after another, each write allowed by `intent_status_transition_allowed`.
pub data Writes : IntentStatus → IntentStatus → Type 0 where
  start : {s : IntentStatus} → Writes s s
  write : {s t u : IntentStatus} → Writes s t → transition_allowed t u ≡ true → Writes s u
