-- ===== src/Contract/Instantiated.antt =====
-- `instantiate` of src/contract.rs.
use juno_alpha_proxy_contrac.Common.{
  String, inl, inr, ◌≡◌, refl, ap, List, [], ◌∷◌, Result, ok, arith, All,
}
use juno_alpha_proxy_contrac.Common.Exec
use juno_alpha_proxy_contrac.Common.Outcome.{Result-cases}
use juno_alpha_proxy_contrac.Types.{
  Env, MessageInfo, Response, HotWallet, State, InstantiateMsg, StdError,
}
use juno_alpha_proxy_contrac.World.{World, StoreLaws}
use juno_alpha_proxy_contrac.Constants.{contract_name, contract_version}
use juno_alpha_proxy_contrac.PairTable.{set_pair_contracts}
use juno_alpha_proxy_contrac.HotWallet.{assert_is_valid}
use juno_alpha_proxy_contrac.HotWallet.Validity.{IsValid, assert_is_valid_iff}
use juno_alpha_proxy_contrac.Contract.Start.{
  assert_all_valid, instantiate, signers_event, obisign, run_on,
}

assert_all_valid-All : (ws : List HotWallet) → assert_all_valid ws ≡ ok tt → All IsValid ws
unfolding assert_all_valid
assert_all_valid-All [] h = tt
assert_all_valid-All (x ∷ ws) h = elim (Result-cases (assert_is_valid x)) [
  | inl (_, valid) ↦ ((assert_is_valid_iff x).0 valid, assert_all_valid-All ws (rw valid at h))
  | inr failed ↦ absurd (ground arith)
]

-- The state of a new contract.
pub record Started (w : World) (msg : InstantiateMsg) (cfg : State) : Type 0 where
  pub admin_valid : w.addr_validate msg.admin ≡ ok cfg.admin
  pub none_pending : cfg.pending ≡ cfg.admin
  pub repay_wallet_valid : w.addr_validate msg.fee_lend_repay_wallet ≡ ok cfg.fee_lend_repay_wallet
  pub same_wallets : cfg.hot_wallets ≡ msg.hot_wallets
  pub wallets_valid : All IsValid cfg.hot_wallets
  pub same_debt : cfg.uusd_fee_debt ≡ msg.uusd_fee_debt
  pub same_network : cfg.home_network ≡ msg.home_network

run_on-pairs :
    (network : String) (cfg : State) {cfg' : State}
    → run_on (set_pair_contracts network) cfg ≡ ok cfg'
    → cfg' ≡ record cfg { pair_contracts = cfg'.pair_contracts }
unfolding set_pair_contracts
run_on-pairs network cfg e = ground arith

abbrev first_state : InstantiateMsg → String → String → State
first_state msg admin wallet = record {
  admin = admin;
  pending = admin;
  hot_wallets = msg.hot_wallets;
  uusd_fee_debt = msg.uusd_fee_debt;
  fee_lend_repay_wallet = wallet;
  home_network = msg.home_network;
  pair_contracts = [];
}

started :
    (w : World)
    → StoreLaws w
    → (msg : InstantiateMsg) (admin wallet : String) (cfg' : State) (s5 s6 storage' : w.Storage)
    → w.addr_validate msg.admin ≡ ok admin
    → w.addr_validate msg.fee_lend_repay_wallet ≡ ok wallet
    → assert_all_valid msg.hot_wallets ≡ ok tt
    → run_on (set_pair_contracts msg.home_network) (first_state msg admin wallet) ≡ ok cfg'
    → w.save cfg' s5 ≡ ok s6
    → s6 ≡ storage'
    → (cfg : State) × (w.load storage' ≡ ok cfg) × Started w msg cfg
started w laws msg admin wallet cfg' s5 s6 storage' a_valid w_valid all_valid run saved last =
    let start = run_on-pairs msg.home_network (first_state msg admin wallet) run in
    (
      cfg',
      rw last at (laws.load-save cfg' s5 saved),
      rw start (record {
        admin_valid = a_valid;
        none_pending = refl;
        repay_wallet_valid = w_valid;
        same_wallets = refl;
        wallets_valid = assert_all_valid-All msg.hot_wallets all_valid;
        same_debt = refl;
        same_network = refl;
      }),
    )

-- A call of `instantiate` that succeeds has stored a state with the validated admin, who is pending
-- too, the validated repay wallet, the debt and the network of the message, and its hot wallets,
-- each of which has one limit, in the USDC of Juno or in "testtokens", and the text "true" as its
-- `usdc_denom`.
pub instantiate-Started :
    (w : World)
    → StoreLaws w
    → (env : Env) (info : MessageInfo) (msg : InstantiateMsg) (storage : w.Storage) {res : Response}
      {storage' : w.Storage}
    → instantiate w env info msg storage ≡ (ok res, storage')
    → (cfg : State) × (w.load storage' ≡ ok cfg) × Started w msg cfg
unfolding instantiate
instantiate-Started w laws env info msg storage {res} {storage'} e =
    let versioned = Exec.writes (w.set_contract_version contract_name contract_version) in
    let (_, s1, q1, e1) = Exec.>>=-eq-ok versioned _ storage e in
    let (admin, s2, q2, e2) = Exec.>>=-eq-ok (Exec.lift (w.addr_validate msg.admin)) _ s1 e1 in
    let (wallet, s3, q3, e3) =
      Exec.>>=-eq-ok (Exec.lift (w.addr_validate msg.fee_lend_repay_wallet)) _ s2 e2 in
    let (_, s4, q4, e4) = Exec.>>=-eq-ok (Exec.lift (assert_all_valid msg.hot_wallets)) _ s3 e3 in
    let (cfg', s5, q5, e5) =
      Exec.>>=-eq-ok
        (Exec.lift (run_on (set_pair_contracts msg.home_network) (first_state msg admin wallet))) _
        s4 e4 in
    let (_, s6, q6, e6) = Exec.>>=-eq-ok (Exec.writes (w.save cfg')) _ s5 e5 in
    let (event, s7, q7, e7) =
      Exec.>>=-eq-ok (Exec.lift (signers_event w obisign msg.signers)) _ s6 e6 in
    started w laws msg admin wallet cfg' s5 s6 storage' (ground arith) (ground arith) (ground arith)
      (ap (λ (p : Result StdError State × w.Storage). p.0) q5) (ground arith) (ground arith)
