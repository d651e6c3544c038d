-- ===== src/Submsgs.antt =====
-- src/submsgs.rs: what kind of message a sub-message is, and the funds that it spends. A method on
-- `&mut self` takes the message and returns it changed, with its result.
pub mod Counted
use juno_alpha_proxy_contrac.Common.{Option, none, some, List, [], ◌∷◌, ◌++◌, ok, err, panic, ℕ}
use juno_alpha_proxy_contrac.Types.{
  Binary, BankMsg, Coin, CosmosMsg, WasmMsg, Cw20ExecuteMsg, PendingSubmsg, SubmsgType, WasmmsgType,
  StdResult, generic_err, ContractError,
}
use juno_alpha_proxy_contrac.Common.Exec.{Exec, ◌>>=◌}
use juno_alpha_proxy_contrac.World.{World}

-- the loop `for fund in funds { self.funds.push(fund) }`
push_funds : List Coin → List Coin → List Coin
push_funds funds [] = funds
push_funds funds (fund ∷ rest) = push_funds (funds ++ fund ∷ []) rest

unfoldable pub add_funds : List Coin → PendingSubmsg → PendingSubmsg
unfolding push_funds
add_funds funds self = record self { funds = push_funds self.funds funds }

unfoldable pub process_bank_type : Exec PendingSubmsg ContractError SubmsgType
unfolding push_funds
process_bank_type self = elim self.msg [
  | CosmosMsg.bank (BankMsg.send to_address amount) ↦
      (ok SubmsgType.bank_send, record self { funds = push_funds self.funds amount })
  | CosmosMsg.bank (BankMsg.burn amount) ↦
      (ok SubmsgType.bank_burn, record self { funds = push_funds self.funds amount })
  | _ ↦ (ok SubmsgType.unknown, self)
]

-- `if let Some(denom) = self.contract_addr.clone() { self.funds.push(Coin { amount, denom }) }`
abbrev push_cw20 : ℕ → PendingSubmsg → PendingSubmsg
push_cw20 amount self = elim self.contract_addr [
  | none ↦ self
  | some denom ↦ record self {
    funds = self.funds ++ record { amount = amount; denom = denom } ∷ [];
  }
]

-- the `match` on a decoded cw20 message
cw20_type : Cw20ExecuteMsg → PendingSubmsg → WasmmsgType × PendingSubmsg
cw20_type (Cw20ExecuteMsg.transfer recipient amount) self =
    (WasmmsgType.cw20_transfer, push_cw20 amount self)
cw20_type (Cw20ExecuteMsg.burn amount) self = (WasmmsgType.cw20_burn, push_cw20 amount self)
cw20_type (Cw20ExecuteMsg.send contract amount msg) self =
    (WasmmsgType.cw20_send, push_cw20 amount self)
cw20_type (Cw20ExecuteMsg.increase_allowance spender amount) self =
    (WasmmsgType.cw20_increase_allowance, push_cw20 amount self)
cw20_type (Cw20ExecuteMsg.decrease_allowance spender amount) self =
    (WasmmsgType.cw20_decrease_allowance, self)
cw20_type (Cw20ExecuteMsg.transfer_from owner recipient amount) self =
    (WasmmsgType.cw20_transfer_from, self)
cw20_type (Cw20ExecuteMsg.send_from owner contract amount msg) self =
    (WasmmsgType.cw20_send_from, self)
cw20_type (Cw20ExecuteMsg.burn_from owner amount) self = (WasmmsgType.cw20_burn_from, self)
cw20_type (Cw20ExecuteMsg.mint recipient amount) self = (WasmmsgType.cw20_mint, self)
cw20_type (Cw20ExecuteMsg.update_marketing project description marketing) self =
    (WasmmsgType.cw20_update_marketing, self)
cw20_type Cw20ExecuteMsg.upload_logo self = (WasmmsgType.cw20_upload_logo, self)

module _ (w : World) where
  abbrev decoded : Option Binary → StdResult Cw20ExecuteMsg
  decoded none = err (generic_err "Message does not exist as struct member")
  decoded (some msg) = w.from_binary msg

  -- The error of the decoding is dropped: what cannot be decoded is `unknown`.
  unfoldable pub process_execute_type : Exec PendingSubmsg ContractError SubmsgType
  unfolding cw20_type
  process_execute_type self = elim (decoded self.binarymsg) [
    | ok msg ↦ let (ty, self') = cw20_type msg self in (ok (SubmsgType.execute_wasm ty), self')
    | err _ ↦ (ok SubmsgType.unknown, self)
    | panic ↦ (panic, self)
  ]

  -- `self.ty = …; self.ty.clone()`
  abbrev set_type : SubmsgType → Exec PendingSubmsg ContractError SubmsgType
  set_type ty self = (ok ty, record self { ty = ty })

  unfoldable pub process_and_get_msg_type : Exec PendingSubmsg ContractError SubmsgType
  unfolding process_execute_type process_bank_type
  process_and_get_msg_type self = elim self.msg [
    | CosmosMsg.wasm (WasmMsg.execute contract_addr msg funds) ↦
        (process_execute_type >>= set_type)
          (record self { contract_addr = some contract_addr; binarymsg = some msg; funds = funds })
    | CosmosMsg.bank _ ↦
        (process_bank_type >>= set_type)
          (record self { contract_addr = none; binarymsg = none; funds = [] })
    | _ ↦ (ok SubmsgType.unknown, self)
  ]
