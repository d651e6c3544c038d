-- ===== src/SourcedCoin.antt =====
-- src/sourced_coin.rs: converting a coin to USDC, or a USDC amount to a coin. The pair contracts are
-- those of the saved state.
pub mod Conversion
pub mod Stable
pub mod Total
use juno_alpha_proxy_contrac.Common.{
  ℕ, String, Bool, true, false, List, [], ◌∷◌, ◌++◌, Result, ok, if◌then◌else◌, ◌==◌,
}
use Prim.Native.String.{◌++◌ as append}
use juno_alpha_proxy_contrac.Common.Outcome.{◌>>=◌}
use juno_alpha_proxy_contrac.Types.{Attribute, Source, SourcedCoin, ContractError, from_std}
use juno_alpha_proxy_contrac.World.{World}
use juno_alpha_proxy_contrac.Constants.{mainnet_axlusdc_ibc, get_usdc_sourced_coin}
use juno_alpha_proxy_contrac.PairTable.{get_pair_contract}
use juno_alpha_proxy_contrac.PairContract.{query_contract}

-- the loop of `sources_as_attributes`
push_queries : List Attribute → List Source → List Attribute
push_queries attributes [] = attributes
push_queries attributes (s ∷ rest) =
    push_queries
      (attributes
        ++ record { key = append "query to contract " s.contract_addr; value = s.query_msg } ∷ [])
      rest

unfoldable pub sources_as_attributes : SourcedCoin → List Attribute
unfolding push_queries
sources_as_attributes self = push_queries [] self.wrapped_sources.sources

module _ (w : World) where
  unfoldable pub get_price_from_simulation :
      w.Storage → SourcedCoin → String × String → ℕ → Bool → Bool → Result ContractError SourcedCoin
  get_price_from_simulation storage self denoms amount target_amount reverse_message_type = do
    cfg ← from_std (w.load storage)
    pair_contract ← get_pair_contract cfg denoms
    query_contract w pair_contract.0 amount pair_contract.1 target_amount reverse_message_type

  unfoldable pub simulate_reverse_swap :
      w.Storage → SourcedCoin → String × String → ℕ → Result ContractError SourcedCoin
  unfolding get_price_from_simulation
  simulate_reverse_swap storage self denoms amount =
      get_price_from_simulation storage self denoms amount true true

  unfoldable pub simulate_swap :
      w.Storage → SourcedCoin → String × String → ℕ → Result ContractError SourcedCoin
  unfolding get_price_from_simulation
  simulate_swap storage self denoms amount =
      get_price_from_simulation storage self denoms amount false false

  -- `reverse` is for a target amount of USDC (fees); otherwise a coin is converted (spend limits).
  unfoldable pub get_converted_to_usdc :
      w.Storage → SourcedCoin → Bool → Result ContractError SourcedCoin
  unfolding simulate_swap simulate_reverse_swap
  get_converted_to_usdc storage self reverse =
      if self.coin.denom == mainnet_axlusdc_ibc
      then ok (get_usdc_sourced_coin self.coin.amount)
      else if reverse
      then simulate_reverse_swap storage self (mainnet_axlusdc_ibc, self.coin.denom)
          self.coin.amount
      else simulate_swap storage self (self.coin.denom, mainnet_axlusdc_ibc) self.coin.amount
