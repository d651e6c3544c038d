-- ===== src/Contract/Refines.antt =====
-- `execute` of src/contract.rs implements the steps of an account.
use mathlib.Core.Path.{fun_ext}
use juno_alpha_proxy_contrac.Common.{
  ℕ, String, subst, Bool, ◌≡◌, ◌≢◌, refl, sym, ◌∙◌, ap, ◌⊎◌, inl, inr, false, true, Option, none,
  List, [], ◌∷◌, ok, arith, any, find?, ◌==◌, eq_iff, Bool-cases,
}
use juno_alpha_proxy_contrac.Types.{
  Env, MessageInfo, Response, HotWallet, State, ExecuteMsg, CosmosMsg,
}
use juno_alpha_proxy_contrac.World.{World, StoreLaws}
use juno_alpha_proxy_contrac.Account.{
  Account, Request, Step, update, spent, proposed, taken_over, declined, allowed, revoked,
}
use juno_alpha_proxy_contrac.State
use juno_alpha_proxy_contrac.State.{has_address, maybe_get_hot_wallet}
use juno_alpha_proxy_contrac.State.Spending.{settings}
use juno_alpha_proxy_contrac.State.Wallets.{find?-append_new, find?-retain}
use juno_alpha_proxy_contrac.Contract.{execute}
use juno_alpha_proxy_contrac.State.Draws.{rules}
use juno_alpha_proxy_contrac.Contract.Spend.Draws.{DrawsAt, execute_execute-Draws}
use juno_alpha_proxy_contrac.Contract.Changes.{Effect, spending}
use juno_alpha_proxy_contrac.Contract.Effect.{execute-Effect}

abbrev pub account : State → Account
account cfg = record {
  admin = cfg.admin;
  pending = cfg.pending;
  lender = cfg.fee_lend_repay_wallet;
  debt = cfg.uusd_fee_debt;
  wallet = λ addr. find? (has_address addr) cfg.hot_wallets;
}

-- What a message asks of the account. The texts of the confirming signers only make events.
abbrev pub request : ExecuteMsg → Request
request (ExecuteMsg.execute msgs) = Request.spend
request (ExecuteMsg.sim_execute msgs) = Request.spend
request (ExecuteMsg.propose_update_admin new_admin) = Request.propose new_admin
request (ExecuteMsg.confirm_update_admin signers) = Request.take_over
request ExecuteMsg.cancel_update_admin = Request.decline
request (ExecuteMsg.add_hot_wallet wallet) = Request.allow wallet
request (ExecuteMsg.rm_hot_wallet doomed) = Request.revoke doomed

any-eq-false :
    (addr : String) (ws : List HotWallet)
    → any (has_address addr) ws ≡ false
    → find? (has_address addr) ws ≡ none
any-eq-false addr [] h = refl
any-eq-false addr (x ∷ ws) h = ground (arith, any-eq-false addr ws)

any-eq-true :
    (addr : String) (ws : List HotWallet)
    → any (has_address addr) ws ≡ true
    → find? (has_address addr) ws ≢ none
any-eq-true addr [] h e = cc
any-eq-true addr (x ∷ ws) h e = ground (arith, any-eq-true addr ws)

-- Two results of a lookup are the same if the two lookups find the same.
same_found :
    (cfg cfg' : State) (addr : String)
    → maybe_get_hot_wallet cfg' addr ≡ maybe_get_hot_wallet cfg addr
    → find? (has_address addr) cfg'.hot_wallets ≡ find? (has_address addr) cfg.hot_wallets
unfolding maybe_get_hot_wallet
same_found cfg cfg' addr e = ground arith

spent_wallets :
    (cfg cfg' : State) (sender : String)
    → ((other : String)
        → other ≢ sender
        → maybe_get_hot_wallet cfg' other ≡ maybe_get_hot_wallet cfg other)
    → (other : String)
    → find? (has_address other) cfg'.hot_wallets
      ≡ update sender
          (find? (has_address sender) cfg'.hot_wallets)
          (λ addr. find? (has_address addr) cfg.hot_wallets)
          other
spent_wallets cfg cfg' sender others other = elim (Bool-cases (sender == other)) [
  | inl same ↦ rw (same, (eq_iff sender other).0 same)
  | inr differ ↦
      rw differ
        (same_found cfg cfg' other (others other (λ e. ground (arith, eq_iff sender other))))
]

account_ext :
    (cfg cfg' : State) (f : String → Option HotWallet)
    → cfg'.admin ≡ cfg.admin
    → cfg'.pending ≡ cfg.pending
    → cfg'.fee_lend_repay_wallet ≡ cfg.fee_lend_repay_wallet
    → (account cfg').wallet ≡ f
    → account cfg' ≡ record (account cfg) { debt = cfg'.uusd_fee_debt; wallet = f }
account_ext cfg cfg' f a p l g i = record {
  admin = a i;
  pending = p i;
  lender = l i;
  debt = cfg'.uusd_fee_debt;
  wallet = g i;
}

module _ (w : World) (current_time : ℕ) (sender : String) where
  spent-Step :
      (cfg cfg' : State)
      → (cfg.admin ≡ sender) ⊎ (find? (has_address sender) cfg.hot_wallets ≢ none)
      → settings cfg' ≡ settings cfg
      → (cfg'.uusd_fee_debt ≡ cfg.uusd_fee_debt) ⊎ (cfg'.uusd_fee_debt ≡ 0)
      → ((other : String)
          → other ≢ sender
          → maybe_get_hot_wallet cfg' other ≡ maybe_get_hot_wallet cfg other)
      → DrawsAt w current_time sender cfg cfg'
      → Step (rules w current_time) sender (account cfg) (account cfg') Request.spend
  spent-Step cfg cfg' who same debt others drawn =
      spent (find? (has_address sender) cfg'.hot_wallets) cfg'.uusd_fee_debt who drawn debt (
        account_ext cfg cfg' _ (ap (λ (s : State). s.admin) same)
          (ap (λ (s : State). s.pending) same) (ap (λ (s : State). s.fee_lend_repay_wallet) same)
          (fun_ext (spent_wallets cfg cfg' sender others)))

  request-spending :
      (msgs : List CosmosMsg) (simulation : Bool)
      → request (spending msgs simulation) ≡ Request.spend
  request-spending msgs false = refl
  request-spending msgs true = refl

  Effect-Step :
      {msg : ExecuteMsg} {cfg cfg' : State}
      → ((msgs : List CosmosMsg) (simulation : Bool)
          → msg ≡ spending msgs simulation
          → DrawsAt w current_time sender cfg cfg')
      → Effect w sender msg cfg cfg'
      → Step (rules w current_time) sender (account cfg) (account cfg') (request msg)
  unfolding State.add_hot_wallet State.rm_hot_wallet
  Effect-Step {cfg} {cfg'} draws (Effect.spent msgs simulation ask who same debt others) =
      subst (Step (rules w current_time) sender (account cfg) (account cfg'))
        (sym (ap request ask ∙ request-spending msgs simulation))
        (spent-Step cfg cfg' who same debt others (draws msgs simulation ask))
  Effect-Step draws (Effect.proposed new_admin heir ask q valid e) =
      rw ask (proposed new_admin heir q valid (ap account e))
  Effect-Step {cfg} draws (Effect.confirmed signers ask q e) =
      rw ask (taken_over q (ap account e ∙ ap (λ s. record (account cfg) { admin = s }) q))
  Effect-Step draws (Effect.cancelled ask q e) = rw ask (declined q (ap account e))
  Effect-Step {cfg} draws (Effect.wallet_added new ask q fresh e) = rw ask (
      allowed new q (any-eq-false new.address cfg.hot_wallets fresh) (
        ap account e
        ∙ ap (λ f. record (account cfg) { wallet = f })
            (fun_ext (λ addr. find?-append_new addr new cfg.hot_wallets fresh))))
  Effect-Step {cfg} draws (Effect.wallet_removed doomed ask q found e) = rw ask (
      revoked doomed q (any-eq-true doomed cfg.hot_wallets found) (
        ap account e
        ∙ ap (λ f. record (account cfg) { wallet = f })
            (fun_ext (λ addr. find?-retain doomed addr cfg.hot_wallets))))

-- The wallet that the sender of a spending message has after it.
spending-DrawsAt :
    (w : World)
    → StoreLaws w
    → (env : Env) (info : MessageInfo) (msgs : List CosmosMsg) (simulation : Bool)
      (storage : w.Storage) (cfg cfg' : State) {res : Response} {storage' : w.Storage}
    → w.load storage ≡ ok cfg
    → w.load storage' ≡ ok cfg'
    → execute w env info (spending msgs simulation) storage ≡ (ok res, storage')
    → DrawsAt w env.block.time info.sender cfg cfg'
unfolding execute
spending-DrawsAt w laws env info msgs false storage cfg cfg' loaded stored e =
    let (cfg1, found, drawn) =
      execute_execute-Draws w laws env info msgs false storage cfg loaded e in
    subst (DrawsAt w env.block.time info.sender cfg) {x = cfg1} {y = cfg'} (ground arith) drawn
spending-DrawsAt w laws env info msgs true storage cfg cfg' loaded stored e =
    let (cfg1, found, drawn) =
      execute_execute-Draws w laws env info msgs true storage cfg loaded e in
    subst (DrawsAt w env.block.time info.sender cfg) {x = cfg1} {y = cfg'} (ground arith) drawn

-- The stored states of a contract are accounts, and a call of `execute` that succeeds is the step of
-- the account that its message requests, under that step's condition on the sender. A takeover makes
-- the pending admin, who sends it, the admin; a refusal makes the admin the pending one; a proposal
-- names the address that its text is validated to; an allowance is granted to an address that has
-- none, or revoked from one that has it. A spend, by the admin or a hot wallet, pays the debt in full
-- or not at all and draws on the sender's wallet any number of times: within the period what remains
-- of its first limit only falls, and once the period is over the limit starts again from its full
-- amount with the period's next end; every other wallet stays.
pub execute-Step :
    (w : World)
    → StoreLaws w
    → (env : Env) (info : MessageInfo) (msg : ExecuteMsg) (storage : w.Storage) (cfg : State)
      {res : Response} {storage' : w.Storage}
    → w.load storage ≡ ok cfg
    → execute w env info msg storage ≡ (ok res, storage')
    → (cfg' : State) × (w.load storage' ≡ ok cfg')
      × Step (rules w env.block.time) info.sender (account cfg) (account cfg') (request msg)
execute-Step w laws env info msg storage cfg {storage'} loaded e =
    let (cfg', found, effect) = execute-Effect w laws env info msg storage cfg loaded e in
    (
      cfg',
      found,
      Effect-Step w env.block.time info.sender
          (λ msgs simulation ask.
            spending-DrawsAt w laws env info msgs simulation storage cfg cfg' loaded found
              (rw ask at e))
          effect,
    )
