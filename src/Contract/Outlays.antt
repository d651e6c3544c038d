-- ===== src/Contract/Outlays.antt =====
-- What the calls of `execute` in src/contract.rs take from the limit of a hot wallet within one period.
use juno_alpha_proxy_contrac.Common.{ℕ, ◌+◌, ◌-◌, ◌≤◌, String, ◌≡◌, ◌≢◌, false, true, List, ◌∷◌, ok}
use juno_alpha_proxy_contrac.Types.{CosmosMsg, CoinLimit, HotWallet, Response, State}
use juno_alpha_proxy_contrac.World.{World}
use juno_alpha_proxy_contrac.HotWallet.{should_reset}
use juno_alpha_proxy_contrac.HotWallet.Spending.{Costs, with_remaining}
use juno_alpha_proxy_contrac.State.{maybe_get_hot_wallet}
use juno_alpha_proxy_contrac.State.Spending.{settings}
use juno_alpha_proxy_contrac.Contract.{execute}
use juno_alpha_proxy_contrac.Contract.Outsiders.{messages_of}
use juno_alpha_proxy_contrac.Contract.Run.{Call, during, Run, no_call, call, Outsider}
use juno_alpha_proxy_contrac.Contract.Spend.{is_authorized_call}
use juno_alpha_proxy_contrac.Contract.Spend.Charges.{moved_all}

module _ (w : World) (addr : String) where
  -- What a call takes from the wallet at the address: the cost of all coins that its messages move, at
  -- the prices during the call, if the address makes it and its first message is not for an authorized
  -- contract; else nothing. The value of each coin counts modulo 2^64.
  pub data Outlay (storage : w.Storage) (c : Call) : ℕ → Type 0 where
    by_other : c.info.sender ≢ addr → Outlay storage c 0
    by_authorized :
        (m : CosmosMsg) (rest : List CosmosMsg) (cfg : State)
        → c.info.sender ≡ addr
        → w.load storage ≡ ok cfg
        → messages_of c.msg ≡ m ∷ rest
        → is_authorized_call cfg c.info m ≡ ok true
        → Outlay storage c 0
    by_coins :
        {n : ℕ}
        → c.info.sender ≡ addr
        → Costs (during w c) storage (moved_all (during w c) (messages_of c.msg)) n
        → Outlay storage c n

  -- The sum over the calls of a run.
  pub data Outlays {P : Call → Type 0}
      : (storage storage' : w.Storage) → Run w P storage storage' → ℕ → Type 0 where
    none_yet : {storage : w.Storage} → Outlays storage storage no_call 0
    and_then :
        {c : Call} {res : Response} {storage storage1 storage2 : w.Storage} {p : P c}
        {e : execute (during w c) c.env c.info c.msg storage ≡ (ok res, storage1)}
        {rest : Run w P storage1 storage2} {m n : ℕ}
        → Outlay storage c m
        → Outlays storage1 storage2 rest n
        → Outlays storage storage2 (call c p e rest) (m + n)

-- A call by an outsider, at a time in the wallet's period.
abbrev pub Within : (w : World) → State → HotWallet → Call → Type 0
Within w cfg wal c = Outsider cfg c × (should_reset (during w c) c.env.block.time wal ≡ false)

-- The storage holds a state with the same settings in which so much less remains to the wallet.
abbrev pub Left :
    (w : World) → String → HotWallet → CoinLimit → List CoinLimit → State → ℕ → w.Storage → Type 0
Left w addr wal l limits cfg n storage' =
    (n ≤ l.limit_remaining)
    × ((cfg' : State) × (w.load storage' ≡ ok cfg')
        × (settings cfg' ≡ settings cfg)
        × (maybe_get_hot_wallet cfg' addr
            ≡ ok (with_remaining wal l limits (l.limit_remaining - n))))

-- The outlays of the run add up to at most what remains, and exactly that is taken.
abbrev pub WithinLimit :
    (w : World)
    → String
    → HotWallet
    → CoinLimit
    → List CoinLimit
    → State
    → {P : Call → Type 0} → (storage storage' : w.Storage) → Run w P storage storage'
    → Type 0
WithinLimit w addr wal l limits cfg storage storage' run =
    (n : ℕ) × Outlays w addr storage storage' run n × Left w addr wal l limits cfg n storage'
