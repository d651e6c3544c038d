-- ===== src/Contract/Start.antt =====
-- src/contract.rs: `instantiate` and `migrate`.
use juno_alpha_proxy_contrac.Common.{
  String, List, [], ◌∷◌, ◌++◌, Result, ok, err, panic, map_err, if◌then◌else◌,
}
use juno_alpha_proxy_contrac.Common.Outcome
use juno_alpha_proxy_contrac.Common.Exec.{Exec, lift, writes, pure, ◌>>=◌, ◌>>◌}
use juno_alpha_proxy_contrac.Types.{
  Env, MessageInfo, Event, Response, new_response, add_event, add_attribute, HotWallet, State,
  InstantiateMsg, StdError, StdResult, ContractError, sem_ver, from_std,
}
use juno_alpha_proxy_contrac.World.{World}
use juno_alpha_proxy_contrac.Constants.{contract_name, contract_version}
use juno_alpha_proxy_contrac.PairTable.{set_pair_contracts}
use juno_alpha_proxy_contrac.HotWallet.{assert_is_valid}

-- `for wallet in msg.hot_wallets.clone() { wallet.assert_is_valid()?; }`
unfoldable pub assert_all_valid : List HotWallet → StdResult (Unit {0})
assert_all_valid [] = ok tt
assert_all_valid (wallet ∷ rest) = Outcome.◌>>=◌ (assert_is_valid wallet) λ _. assert_all_valid rest

abbrev pub obisign : Event
obisign = record { ty = "obisign"; attributes = [] }

-- `event.add_attribute("signer", addr)`
abbrev pub add_signer : Event → String → Event
add_signer event addr = record event {
  attributes = event.attributes ++ record { key = "signer"; value = addr } ∷ [];
}

-- What `new_dt` after a call on `&mut cfg` holds.
abbrev pub run_on : Exec State StdError (Unit {0}) → State → StdResult State
run_on method cfg = let (r, cfg') = method cfg in Outcome.◌>>=◌ r λ _. ok cfg'

module _ (w : World) where
  -- the loop over the signers
  unfoldable pub signers_event : Event → List String → StdResult Event
  signers_event event [] = ok event
  signers_event event (signer ∷ rest) =
      Outcome.◌>>=◌ (w.addr_validate signer) λ addr. signers_event (add_signer event addr) rest

  unfoldable pub instantiate : Env → MessageInfo → InstantiateMsg → Exec w.Storage StdError Response
  instantiate env info msg = do
    writes (w.set_contract_version contract_name contract_version)
    valid_admin ← lift (w.addr_validate msg.admin)
    valid_repay_wallet ← lift (w.addr_validate msg.fee_lend_repay_wallet)
    lift (assert_all_valid msg.hot_wallets)
    let cfg : State = record {
      admin = valid_admin;
      pending = valid_admin;
      hot_wallets = msg.hot_wallets;
      uusd_fee_debt = msg.uusd_fee_debt;
      fee_lend_repay_wallet = valid_repay_wallet;
      home_network = msg.home_network;
      pair_contracts = [];
    }
    cfg' ← lift (run_on (set_pair_contracts cfg.home_network) cfg)
    writes (w.save cfg')
    event ← lift (signers_event obisign msg.signers)
    pure (add_event event new_response)

  abbrev parse : String → Result ContractError w.Version
  parse text = map_err sem_ver (w.parse_version text)

  unfoldable pub migrate : Env → Exec w.Storage ContractError Response
  migrate env storage = elim (w.get_contract_version storage) [
    | ok res ↦
        (do
          version ← lift (parse contract_version)
          storage_version ← lift (parse res.version)
          (if w.version_lt storage_version version
              then writes (λ s. from_std (w.set_contract_version contract_name contract_version s))
              else pure tt)
          pure new_response)
          storage
    | err _ ↦ (ok (add_attribute "warning" "no contract versioning" new_response), storage)
    | panic ↦ (panic, storage)
  ]
