-- ===== src/Tests/Calls.antt =====
-- The theorems on whole calls and on sequences of them: carol spends, alice hands over to erin, and the
-- contract is started and migrated.
use juno_alpha_proxy_contrac.Contract.Start.{migrate}
use juno_alpha_proxy_contrac.World.{World, StoreLaws, VersionLaws}
use juno_alpha_proxy_contrac.Constants.{contract_name, contract_version}
use juno_alpha_proxy_contrac.Contract.Migrated.{UpToDate, migrate-UpToDate}
use juno_alpha_proxy_contrac.Common.{
  if◌then◌else◌, ◌==◌, arith, String, ◌≡◌, refl, ◌≤◌, none, some, Option, [], ◌∷◌, ok, eq_iff,
}
use juno_alpha_proxy_contrac.Types.{
  new_response, ContractVersion, State, InstantiateMsg, ExecuteMsg,
}
use juno_alpha_proxy_contrac.HotWallet.{assert_is_valid}
use juno_alpha_proxy_contrac.PairTable.{set_pair_contracts}
use juno_alpha_proxy_contrac.Contract.{execute}
use juno_alpha_proxy_contrac.Contract.Start.{instantiate, assert_all_valid, signers_event, obisign}
use juno_alpha_proxy_contrac.Contract.Spend.Settings.{SameSettings}
use juno_alpha_proxy_contrac.Account.{Step, Request}
use juno_alpha_proxy_contrac.State.Draws.{rules}
use juno_alpha_proxy_contrac.Contract.Refines.{account, execute-Step}
use juno_alpha_proxy_contrac.Contract.Changes.{Effected}
use juno_alpha_proxy_contrac.Contract.Effect.{execute-Effect}
use juno_alpha_proxy_contrac.Contract.Run.{
  Call, Run, no_call, call, Outsider, Run-SameSettings, Run-debt,
}
use juno_alpha_proxy_contrac.Contract.Succession.{
  Succeeds, after, execute-succession, propose-confirm,
}
use juno_alpha_proxy_contrac.Contract.Distinct.{Distinct, Run-Distinct}
use juno_alpha_proxy_contrac.Contract.Instantiated.{Started, instantiate-Started}
use juno_alpha_proxy_contrac.Tests.Chain.{
  chain, chain-StoreLaws, store, store_left, carol, with_debt, at_second, from,
}
use juno_alpha_proxy_contrac.Tests.Handlers.{pay_bob, paid_response, carol_pays}

pub carol_executes :
    execute chain (at_second 1000) (from "carol") (ExecuteMsg.execute (pay_bob 100 ∷ [])) (store 40)
    ≡ (ok paid_response, store_left 200)
unfolding execute
carol_executes = carol_pays

execute-Effect_example :
    Effected chain "carol" (ExecuteMsg.execute (pay_bob 100 ∷ [])) (with_debt 40) (store_left 200)
execute-Effect_example =
    execute-Effect chain chain-StoreLaws (at_second 1000) (from "carol")
      (ExecuteMsg.execute (pay_bob 100 ∷ [])) (store 40) (with_debt 40) refl carol_executes

abbrev pub carol_call : Call
carol_call = record {
  env = at_second 1000;
  info = from "carol";
  msg = ExecuteMsg.execute (pay_bob 100 ∷ []);
  token1_for_token2 = chain.query_token1_for_token2;
  token2_for_token1 = chain.query_token2_for_token1;
}

pub carol_outside : Outsider (with_debt 40) carol_call
carol_outside = (λ e. cc ((eq_iff "carol" "alice").1 e), λ e. cc ((eq_iff "carol" "alice").1 e))

abbrev pub carol-Run : {P : Call → Type 0} → P carol_call → Run chain P (store 40) (store_left 200)
carol-Run s = call carol_call s carol_executes no_call

execute-Step_example :
    (cfg' : State) × (chain.load (store_left 200) ≡ ok cfg')
    × Step
        (rules chain ((at_second 1000).block.time))
        "carol"
        (account (with_debt 40))
        (account cfg')
        Request.spend
execute-Step_example =
    execute-Step chain chain-StoreLaws (at_second 1000) (from "carol")
      (ExecuteMsg.execute (pay_bob 100 ∷ [])) (store 40) (with_debt 40) refl carol_executes

Run-SameSettings_example : SameSettings chain (store_left 200) (with_debt 40)
Run-SameSettings_example =
    Run-SameSettings chain chain-StoreLaws (with_debt 40) refl (carol-Run carol_outside)

Run-debt_example :
    (cfg' : State) × (chain.load (store_left 200) ≡ ok cfg') × (cfg'.uusd_fee_debt ≤ 40)
Run-debt_example = Run-debt chain chain-StoreLaws (with_debt 40) refl (carol-Run tt)

Run-Distinct_example :
    (cfg' : State) × (chain.load (store_left 200) ≡ ok cfg') × Distinct cfg'.hot_wallets
Run-Distinct_example =
    Run-Distinct chain chain-StoreLaws (with_debt 40) refl (refl, tt) (carol-Run tt)

execute-succession_example :
    (cfg' : State) × (chain.load (store_left 200) ≡ ok cfg') × Succeeds "carol" (with_debt 40) cfg'
execute-succession_example =
    execute-succession chain chain-StoreLaws (at_second 1000) (from "carol")
      (ExecuteMsg.execute (pay_bob 100 ∷ [])) (store 40) (with_debt 40) refl carol_executes

abbrev erin_pending : Option State
erin_pending = some (record (with_debt 0) { pending = "erin" })

abbrev erin_admin : Option State
erin_admin = some (record (with_debt 0) { pending = "erin"; admin = "erin" })

no_signers : signers_event chain obisign [] ≡ ok obisign
unfolding signers_event
no_signers = refl

propose-confirm_example :
    (after
        (execute chain
          (at_second 1)
          (from "alice")
          (ExecuteMsg.propose_update_admin "erin")
          (store 0))
        (store 0)
      ≡ erin_pending)
    × (after
          (execute chain
            (at_second 2)
            (from "erin")
            (ExecuteMsg.confirm_update_admin [])
            erin_pending)
          erin_pending
        ≡ erin_admin)
    × (chain.load erin_admin ≡ ok (record (with_debt 0) { pending = "erin"; admin = "erin" }))
propose-confirm_example =
    propose-confirm chain chain-StoreLaws (at_second 1) (at_second 2) (from "alice") (from "erin")
      "erin" [] (store 0) erin_pending erin_admin (with_debt 0) refl refl refl refl no_signers refl

abbrev start_msg : InstantiateMsg
start_msg = record {
  admin = "alice";
  hot_wallets = carol ∷ [];
  uusd_fee_debt = 40;
  fee_lend_repay_wallet = "lender";
  home_network = "EMPTY";
  signers = [];
}

abbrev first_store : Option State
first_store = some (record (with_debt 40) { home_network = "EMPTY"; pair_contracts = [] })

instantiated :
    instantiate chain (at_second 1) (from "alice") start_msg none
    ≡ (ok (record { messages = []; attributes = []; events = obisign ∷ [] }), first_store)
unfolding instantiate assert_all_valid assert_is_valid set_pair_contracts signers_event
instantiated = refl

instantiate-Started_example :
    (cfg : State) × (chain.load first_store ≡ ok cfg) × Started chain start_msg cfg
instantiate-Started_example =
    instantiate-Started chain chain-StoreLaws (at_second 1) (from "alice") start_msg none
      instantiated

-- The concrete chain with a version in its storage: the contract's is 2, every other is 1.
abbrev versioned : World
versioned = record chain {
  Storage = Option State × ContractVersion;
  load = λ storage. chain.load storage.0;
  save = λ s storage. ok (some s, storage.1);
  get_contract_version = λ storage. ok storage.1;
  set_contract_version = λ c v storage. ok (storage.0, record { contract = c; version = v });
  parse_version = λ v. ok (if v == contract_version then 2 else 1);
}

versioned-StoreLaws : StoreLaws versioned
versioned-StoreLaws = record {
  load-save = λ s σ e. ground arith;
  load-set_contract_version = λ c v σ e. ground arith;
}

versioned-VersionLaws : VersionLaws versioned
versioned-VersionLaws = record {
  get-set_contract_version = λ c v σ e. ground arith;
  version_lt-self = λ v. ground arith;
}

abbrev version : String → ContractVersion
version v = record { contract = contract_name; version = v }

migrated :
    migrate versioned (at_second 1) (store 40, version "0.6.1")
    ≡ (ok new_response, (store 40, version contract_version))
unfolding migrate
migrated = refl

migrate-UpToDate_example :
    UpToDate versioned (store 40, version contract_version)
    × (versioned.load (store 40, version contract_version)
        ≡ versioned.load (store 40, version "0.6.1"))
    × (UpToDate versioned (store 40, version "0.6.1")
        → ◌≡◌ {A = versioned.Storage}
            (store 40, version contract_version)
            (store 40, version "0.6.1"))
migrate-UpToDate_example =
    migrate-UpToDate versioned versioned-StoreLaws versioned-VersionLaws (at_second 1)
      (store 40, version "0.6.1") refl migrated
