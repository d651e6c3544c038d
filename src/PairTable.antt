-- ===== src/PairTable.antt =====
-- src/pair_contract_defaults.rs, and the table of pair contracts in src/state.rs: which contract
-- converts one denomination to another.
pub mod Lookup
use juno_alpha_proxy_contrac.Common.{
  String, Bool, true, false, ◌&&◌, Option, none, some, List, [], ◌∷◌, Result, ok, err,
  if◌then◌else◌, ◌==◌,
}
use juno_alpha_proxy_contrac.Common.Exec.{Exec}
use juno_alpha_proxy_contrac.Types.{
  PairContract, loop_type, juno_type, State, StdError, generic_err, ContractError,
  pair_contract_not_found,
}
use juno_alpha_proxy_contrac.Constants.{
  mainnet_axlusdc_ibc, mainnet_denom, mainnet_dex_denom, testnet_denom, testnet_dummy_contract,
  mainnet_id, testnet_id,
}

abbrev pub get_mainnet_pair_contracts : List PairContract
get_mainnet_pair_contracts =
    record {
      contract_addr = "juno1utkr0ep06rkxgsesq6uryug93daklyd6wneesmtvxjkz0xjlte9qdj2s8q";
      denom1 = mainnet_axlusdc_ibc;
      denom2 = mainnet_dex_denom;
      query_format = loop_type;
    }
    ∷ record {
      contract_addr = "juno1qc8mrs3hmxm0genzrd92akja5r0v7mfm6uuwhktvzphhz9ygkp8ssl4q07";
      denom1 = mainnet_denom;
      denom2 = mainnet_dex_denom;
      query_format = loop_type;
    }
    ∷ record {
      contract_addr = "juno1ctsmp54v79x7ea970zejlyws50cj9pkrmw49x46085fn80znjmpqz2n642";
      denom1 = mainnet_denom;
      denom2 = mainnet_axlusdc_ibc;
      query_format = juno_type;
    }
    ∷ []

abbrev pub get_testnet_pair_contracts : List PairContract
get_testnet_pair_contracts =
    record {
      contract_addr = testnet_dummy_contract;
      denom1 = mainnet_axlusdc_ibc;
      denom2 = mainnet_dex_denom;
      query_format = loop_type;
    }
    ∷ record {
      contract_addr = testnet_dummy_contract;
      denom1 = testnet_denom;
      denom2 = mainnet_dex_denom;
      query_format = loop_type;
    }
    ∷ record {
      contract_addr = testnet_dummy_contract;
      denom1 = testnet_denom;
      denom2 = mainnet_axlusdc_ibc;
      query_format = juno_type;
    }
    ∷ []

abbrev pub get_local_pair_contracts : List PairContract
get_local_pair_contracts =
    record {
      contract_addr = "local_usdc_to_uloop_fake";
      denom1 = mainnet_axlusdc_ibc;
      denom2 = mainnet_dex_denom;
      query_format = loop_type;
    }
    ∷ record {
      contract_addr = "local_ujuno_to_uloop_fake";
      denom1 = "testtokens";
      denom2 = mainnet_dex_denom;
      query_format = loop_type;
    }
    ∷ record {
      contract_addr = "local_ujuno_to_usdc_fake";
      denom1 = "testtokens";
      denom2 = mainnet_axlusdc_ibc;
      query_format = juno_type;
    }
    ∷ []

-- the loop of `get_pair_contract`; the flag says that the pair is listed the other way round
unfoldable pub find_pair_contract :
    String × String → List PairContract → Option (PairContract × Bool)
find_pair_contract denoms [] = none
find_pair_contract denoms (p ∷ rest) =
    if p.denom1 == denoms.0 && p.denom2 == denoms.1
    then some (p, false)
    else if p.denom2 == denoms.0 && p.denom1 == denoms.1
    then some (p, true)
    else find_pair_contract denoms rest

unfoldable pub get_pair_contract :
    State → String × String → Result ContractError (PairContract × Bool)
get_pair_contract self denoms = elim (find_pair_contract denoms self.pair_contracts) [
  | some found ↦ ok found
  | none ↦ err (pair_contract_not_found denoms.0 denoms.1 self.pair_contracts)
]

abbrev use_pairs : List PairContract → Exec State StdError (Unit {0})
use_pairs pairs self = (ok tt, record self { pair_contracts = pairs })

unfoldable pub set_pair_contracts : String → Exec State StdError (Unit {0})
set_pair_contracts network self =
    if network == mainnet_id
    then use_pairs get_mainnet_pair_contracts self
    else if network == testnet_id
    then use_pairs get_testnet_pair_contracts self
    else if network == "local"
    then use_pairs get_local_pair_contracts self
    else if network == "EMPTY"
    then use_pairs [] self
    else (err (generic_err "Failed to init pair contracts; unsupported chain id"), self)
