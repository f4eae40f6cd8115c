-- ===== src/Types/Config.antt =====
-- crates/types/src/config.rs
use nbnet.Prelude.{ℕ}

pub data CompatProfile : Type 0 where
  modern legacy : CompatProfile

pub record EvmChainConfig : Type 0 where
  pub chain_id : ℕ
  pub block_gas_limit : ℕ
  pub base_fee_per_gas : ℕ
  pub compat_profile : CompatProfile
  pub min_base_fee : ℕ
  pub base_fee_change_denominator : ℕ
  pub elasticity_multiplier : ℕ

abbrev default_min_base_fee : ℕ
default_min_base_fee = 1_000_000_000

abbrev default_base_fee_change_denom : ℕ
default_base_fee_change_denom = 8

abbrev default_elasticity_multiplier : ℕ
default_elasticity_multiplier = 2

-- `EvmChainConfig::default`
abbrev pub default_config : EvmChainConfig
default_config = record {
  chain_id = 1337;
  block_gas_limit = 30_000_000;
  base_fee_per_gas = 1_000_000_000;
  compat_profile = modern;
  min_base_fee = default_min_base_fee;
  base_fee_change_denominator = default_base_fee_change_denom;
  elasticity_multiplier = default_elasticity_multiplier;
}
