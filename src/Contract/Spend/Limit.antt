-- ===== src/Contract/Spend/Limit.antt =====
-- The limit of a hot wallet over one call of `Execute` or `SimExecute` of src/contract.rs.
use juno_alpha_proxy_contrac.Common.{
  ◌≡◌, refl, sym, ◌∙◌, ◌⊎◌, inl, inr, Bool, true, List, ◌∷◌, Result, ok, arith,
}
use juno_alpha_proxy_contrac.Types.{
  CosmosMsg, CoinLimit, HotWallet, Env, MessageInfo, Response, State, ContractError, new_response,
}
use juno_alpha_proxy_contrac.World.{World, StoreLaws}
use juno_alpha_proxy_contrac.Contract.Spend.Cases.{
  Way, immediate, empty, authorized, checked, execute_execute-Way,
}
use juno_alpha_proxy_contrac.Contract.Spend.Charges.{moved_all, IsRunning, Drew, execute_from-Drew}
use juno_alpha_proxy_contrac.Contract.Spend.{is_authorized_call, execute_execute}

-- The first message calls an authorized contract, and the storage stays.
abbrev pub Authorized :
    (w : World) → State → MessageInfo → List CosmosMsg → w.Storage → w.Storage → Type 0
Authorized w cfg info msgs storage storage' =
    (m : CosmosMsg) × (rest : List CosmosMsg) × (msgs ≡ m ∷ rest)
    × (is_authorized_call cfg info m ≡ ok true)
    × (storage' ≡ storage)

module _ (w : World) (laws : StoreLaws w) (env : Env) (info : MessageInfo) (simulation : Bool)
    (storage : w.Storage) (cfg : State) (wal : HotWallet) (l : CoinLimit) (limits : List CoinLimit)
    (loaded : w.load storage ≡ ok cfg)
    (h : IsRunning w env.block.time info.sender cfg wal l limits) where
  Way-Drew :
      (msgs : List CosmosMsg) {p : Result ContractError Response × w.Storage} {res : Response}
      {storage' : w.Storage}
      → Way w env info simulation storage cfg loaded msgs p
      → p ≡ (ok res, storage')
      → Drew w storage info.sender (moved_all w msgs) wal l limits cfg storage'
        ⊎ Authorized w cfg info msgs storage storage'
  Way-Drew msgs (immediate at_once q) e = let refused = h.not_admin in absurd (ground arith)
  Way-Drew msgs (empty slow q) e = absurd (ground arith)
  Way-Drew msgs (authorized {m} {rest} slow call q) e = inr (m, rest, refl, call, ground arith)
  Way-Drew msgs (checked {m} {rest} slow call q) e = inl (
      execute_from-Drew w laws simulation msgs _ new_response storage cfg wal l limits loaded h
        (sym q ∙ e))

-- When a call of `Execute` or `SimExecute` by a hot wallet succeeds within its period, all the
-- coins that its messages move, the value of each counted modulo 2^64, cost together at most what
-- remains of its limit. Exactly that cost is taken from the wallet, every other address keeps its
-- wallet, and all settings stay. The exception is a first message that calls an authorized
-- contract: then the storage stays.
pub execute_execute-Drew :
    (w : World)
    → StoreLaws w
    → (env : Env) (info : MessageInfo) (msgs : List CosmosMsg) (simulation : Bool)
      (storage : w.Storage) (cfg : State) (wal : HotWallet) (l : CoinLimit)
      (limits : List CoinLimit) {res : Response} {storage' : w.Storage}
    → w.load storage ≡ ok cfg
    → IsRunning w env.block.time info.sender cfg wal l limits
    → execute_execute w env info msgs simulation storage ≡ (ok res, storage')
    → Drew w storage info.sender (moved_all w msgs) wal l limits cfg storage'
      ⊎ Authorized w cfg info msgs storage storage'
execute_execute-Drew w laws env info msgs simulation storage cfg wal l limits loaded h e =
    Way-Drew w laws env info simulation storage cfg wal l limits loaded h msgs
      (execute_execute-Way w env info simulation storage cfg loaded msgs) e
