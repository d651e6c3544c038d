-- ===== src/Constants.antt =====
-- src/constants.rs, and the name and version of src/contract.rs (`CARGO_PKG_VERSION` is the version
-- in Cargo.toml).
use juno_alpha_proxy_contrac.Common.{ℕ, String, [], ◌∷◌, to_string}
use juno_alpha_proxy_contrac.Types.{SourcedCoin}
use Prim.Native.String.{◌++◌}

abbrev pub mainnet_axlusdc_ibc : String
mainnet_axlusdc_ibc = "ibc/EAC38D55372F38F1AFD68DF7FE9EF762DCF69F26520643CF3F9D292A738D8034"

abbrev pub testnet_dummy_contract : String
testnet_dummy_contract = "juno1xy4n2tqzrlvemuhjmcwlluxufflahh6rgzyzudtss2mfv7yt37as9g6yq2"

abbrev pub mainnet_dex_token_contract : String
mainnet_dex_token_contract = "juno1qsrercqegvs4ye0yqg93knv73ye5dc3prqwd6jcdcuj8ggp6w0us66deup"

abbrev pub mainnet_id : String
mainnet_id = "juno-1"

abbrev pub testnet_id : String
testnet_id = "uni-3"

abbrev pub mainnet_denom : String
mainnet_denom = "ujuno"

abbrev pub testnet_denom : String
testnet_denom = "ujunox"

abbrev pub mainnet_dex_denom : String
mainnet_dex_denom = "uloop"

abbrev pub contract_name : String
contract_name = "obi-proxy-contract"

abbrev pub contract_version : String
contract_version = "0.6.2"

unfoldable pub get_usdc_sourced_coin : ℕ → SourcedCoin
get_usdc_sourced_coin amount = record {
  coin = record { denom = mainnet_axlusdc_ibc; amount = amount };
  wrapped_sources = record {
    sources =
        record {
          contract_addr = "1 USDC is 1 USDC";
          query_msg = "converted " ++ to_string amount ++ " to " ++ to_string amount;
        }
        ∷ [];
  };
}
