-- ===== src/Contract/Spend/Draws.antt =====
-- What `Execute` and `SimExecute` of src/contract.rs make of the sender's own wallet.
use juno_alpha_proxy_contrac.Common.{ℕ, String, Bool, List, ok, ◌≡◌, find?}
use juno_alpha_proxy_contrac.Types.{CosmosMsg, Env, MessageInfo, Response, State}
use juno_alpha_proxy_contrac.World.{World, StoreLaws}
use juno_alpha_proxy_contrac.Account.{Draws, nothing, more}
use juno_alpha_proxy_contrac.State.{has_address}
use juno_alpha_proxy_contrac.State.Draws.{rules, check_and_update_spend_limits-Draws}
use juno_alpha_proxy_contrac.Contract.Debt.Repay.{debt_free}
use juno_alpha_proxy_contrac.Contract.Spend.Preserved.{IsSpending, Changed, execute_execute-Changed}
use juno_alpha_proxy_contrac.Contract.Spend.{execute_execute}

-- The wallet at an address is drawn on, and nothing else happens to it.
abbrev pub DrawsAt : World → ℕ → String → State → State → Type 0
DrawsAt w current_time addr self self' =
    Draws (rules w current_time) (find? (has_address addr) self.hot_wallets)
      (find? (has_address addr) self'.hot_wallets)

DrawsAt-IsSpending :
    (w : World) (current_time : ℕ) (addr : String)
    → IsSpending w current_time addr (DrawsAt w current_time addr)
DrawsAt-IsSpending w current_time addr = record {
  nothing = λ self. nothing (find? (has_address addr) self.hot_wallets);
  repeated = λ self self1 self2 drawn drawn1. more drawn drawn1;
  spent = λ storage spend self e.
      check_and_update_spend_limits-Draws w storage current_time addr spend (debt_free self) e;
}

pub execute_execute-Draws :
    (w : World)
    → StoreLaws w
    → (env : Env) (info : MessageInfo) (msgs : List CosmosMsg) (simulation : Bool)
      (storage : w.Storage) (cfg : State) {res : Response} {storage' : w.Storage}
    → w.load storage ≡ ok cfg
    → execute_execute w env info msgs simulation storage ≡ (ok res, storage')
    → Changed w (DrawsAt w env.block.time info.sender) cfg storage'
execute_execute-Draws w laws env info msgs simulation storage cfg loaded e =
    execute_execute-Changed w laws (DrawsAt w env.block.time info.sender) env info
      (DrawsAt-IsSpending w env.block.time info.sender) simulation storage cfg loaded msgs e
