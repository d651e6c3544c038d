-- ===== src/SourcedCoin/Stable.antt =====
-- A conversion of src/sourced_coin.rs reads nothing of the stored state but the pair contracts.
use juno_alpha_proxy_contrac.Common.{String, ◌≡◌, Bool, ok, arith, false, true}
use juno_alpha_proxy_contrac.Types.{SourcedCoin, State}
use juno_alpha_proxy_contrac.World.{World}
use juno_alpha_proxy_contrac.PairTable.{get_pair_contract}
use juno_alpha_proxy_contrac.SourcedCoin.{get_converted_to_usdc}

module _ (w : World) (s s' : w.Storage) (cfg cfg' : State) (loaded : w.load s ≡ ok cfg)
    (loaded' : w.load s' ≡ ok cfg') (same : cfg'.pair_contracts ≡ cfg.pair_contracts) where
  get_pair_contract-same :
      (denoms : String × String) → get_pair_contract cfg' denoms ≡ get_pair_contract cfg denoms
  unfolding get_pair_contract
  get_pair_contract-same denoms = ground arith

  pub get_converted_to_usdc-same :
      (coin : SourcedCoin) (reverse : Bool)
      → get_converted_to_usdc w s' coin reverse ≡ get_converted_to_usdc w s coin reverse
  unfolding get_converted_to_usdc
  get_converted_to_usdc-same coin true = rw (loaded, loaded', get_pair_contract-same)
  get_converted_to_usdc-same coin false = rw (loaded, loaded', get_pair_contract-same)
