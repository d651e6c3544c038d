-- ===== src/Contract/Spend/Others.antt =====
-- `Execute` and `SimExecute` of src/contract.rs leave the wallets of other addresses alone.
use juno_alpha_proxy_contrac.Common.{ℕ, String, ◌≡◌, ◌≢◌, refl, ◌∙◌, Bool, List, ok}
use juno_alpha_proxy_contrac.Types.{CosmosMsg, Env, MessageInfo, Response, State}
use juno_alpha_proxy_contrac.World.{World, StoreLaws}
use juno_alpha_proxy_contrac.State.{maybe_get_hot_wallet}
use juno_alpha_proxy_contrac.State.Period.{maybe_get_hot_wallet-check_and_update_spend_limits}
use juno_alpha_proxy_contrac.Contract.Debt.Repay.{debt_free}
use juno_alpha_proxy_contrac.Contract.Spend.Preserved.{IsSpending, Changed, execute_execute-Changed}
use juno_alpha_proxy_contrac.Contract.Spend.{execute_execute}

-- Every address but one finds the wallet that it found before.
abbrev pub OthersKept : String → State → State → Type 0
OthersKept addr self self' =
    (other : String)
    → other ≢ addr
    → maybe_get_hot_wallet self' other ≡ maybe_get_hot_wallet self other

OthersKept-IsSpending :
    (w : World) (current_time : ℕ) (addr : String)
    → IsSpending w current_time addr (OthersKept addr)
unfolding maybe_get_hot_wallet
OthersKept-IsSpending w current_time addr = record {
  nothing = λ self other ne. refl;
  repeated = λ self self1 self2 k k1 other ne. k1 other ne ∙ k other ne;
  spent = λ storage spend self e. rw e at (
      maybe_get_hot_wallet-check_and_update_spend_limits w storage current_time addr spend
        (debt_free self));
}

pub execute_execute-OthersKept :
    (w : World)
    → StoreLaws w
    → (env : Env) (info : MessageInfo) (msgs : List CosmosMsg) (simulation : Bool)
      (storage : w.Storage) (cfg : State) {res : Response} {storage' : w.Storage}
    → w.load storage ≡ ok cfg
    → execute_execute w env info msgs simulation storage ≡ (ok res, storage')
    → Changed w (OthersKept info.sender) cfg storage'
execute_execute-OthersKept w laws env info msgs simulation storage cfg loaded e =
    execute_execute-Changed w laws (OthersKept info.sender) env info
      (OthersKept-IsSpending w env.block.time info.sender) simulation storage cfg loaded msgs e
