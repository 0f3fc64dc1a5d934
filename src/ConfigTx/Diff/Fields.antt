-- ===== src/ConfigTx/Diff/Fields.antt =====
-- The changed fields of a provider and the equality of providers say the same.
use homepi_mon.Common.{◌≡◌, ◌↔◌, true, [], arith, eq_iff, eq_refl}
use homepi_mon.Config.{ProviderConfig}
use homepi_mon.ConfigTx.Diff.{provider_equal, diff_provider}

-- Two providers of one id are equal exactly when no field of theirs is listed as changed.
pub provider_equal-diff_provider :
    (a b : ProviderConfig) → a.id ≡ b.id → (provider_equal a b ≡ true) ↔ (diff_provider a b ≡ [])
unfolding provider_equal diff_provider
provider_equal-diff_provider a b h = ground (arith, h, eq_refl b.id, eq_iff a.id b.id)
