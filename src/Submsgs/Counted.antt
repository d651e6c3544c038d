-- ===== src/Submsgs/Counted.antt =====
-- Which coins of a message src/submsgs.rs hands on to be checked.
use juno_alpha_proxy_contrac.Common.{
  ℕ, String, ◌≡◌, ◌≢◌, refl, sym, ◌∙◌, inl, inr, Option, none, some, List, [], ◌∷◌, ◌++◌, ok, err,
  panic, arith, append-nil, append_assoc,
}
use juno_alpha_proxy_contrac.Common.Outcome.{Result-cases}
use juno_alpha_proxy_contrac.Types.{
  BankMsg, Coin, CosmosMsg, WasmMsg, Cw20ExecuteMsg, PendingSubmsg, SubmsgType, StdResult,
}
use juno_alpha_proxy_contrac.World.{World}
use juno_alpha_proxy_contrac.Submsgs.{
  push_funds, cw20_type, process_bank_type, process_execute_type, process_and_get_msg_type,
}

-- The tokens that a cw20 message takes from the sender's own balance, or allows to be taken.
abbrev pub own_tokens : Cw20ExecuteMsg → Option ℕ
own_tokens (Cw20ExecuteMsg.transfer recipient amount) = some amount
own_tokens (Cw20ExecuteMsg.burn amount) = some amount
own_tokens (Cw20ExecuteMsg.send contract amount msg) = some amount
own_tokens (Cw20ExecuteMsg.increase_allowance spender amount) = some amount
own_tokens _ = none

abbrev tokens_of : String → Option ℕ → List Coin
tokens_of contract none = []
tokens_of contract (some amount) = record { amount = amount; denom = contract } ∷ []

abbrev decoded_tokens : String → StdResult Cw20ExecuteMsg → List Coin
decoded_tokens contract (ok msg) = tokens_of contract (own_tokens msg)
decoded_tokens contract (err _) = []
decoded_tokens contract panic = []

-- The coins that a message moves.
abbrev pub moved : World → CosmosMsg → List Coin
moved w (CosmosMsg.bank (BankMsg.send to_address amount)) = amount
moved w (CosmosMsg.bank (BankMsg.burn amount)) = amount
moved w (CosmosMsg.wasm (WasmMsg.execute contract msg funds)) =
    funds ++ decoded_tokens contract (w.from_binary msg)
moved w _ = []

push_funds-append : (funds more : List Coin) → push_funds funds more ≡ funds ++ more
unfolding push_funds
push_funds-append funds [] = sym (append-nil funds)
push_funds-append funds (c ∷ more) =
    push_funds-append (funds ++ c ∷ []) more ∙ append_assoc funds (c ∷ []) more

cw20_type-funds :
    (self : PendingSubmsg) (contract : String) (msg : Cw20ExecuteMsg)
    → self.contract_addr ≡ some contract
    → (cw20_type msg self).1.funds ≡ self.funds ++ tokens_of contract (own_tokens msg)
unfolding cw20_type
cw20_type-funds self contract (Cw20ExecuteMsg.transfer recipient amount) e = rw e refl
cw20_type-funds self contract (Cw20ExecuteMsg.burn amount) e = rw e refl
cw20_type-funds self contract (Cw20ExecuteMsg.send _ amount msg) e = rw e refl
cw20_type-funds self contract (Cw20ExecuteMsg.increase_allowance spender amount) e = rw e refl
cw20_type-funds self contract (Cw20ExecuteMsg.decrease_allowance _ _) e =
    sym (append-nil self.funds)
cw20_type-funds self contract (Cw20ExecuteMsg.transfer_from _ _ _) e = sym (append-nil self.funds)
cw20_type-funds self contract (Cw20ExecuteMsg.send_from _ _ _ _) e = sym (append-nil self.funds)
cw20_type-funds self contract (Cw20ExecuteMsg.burn_from _ _) e = sym (append-nil self.funds)
cw20_type-funds self contract (Cw20ExecuteMsg.mint _ _) e = sym (append-nil self.funds)
cw20_type-funds self contract (Cw20ExecuteMsg.update_marketing _ _ _) e =
    sym (append-nil self.funds)
cw20_type-funds self contract Cw20ExecuteMsg.upload_logo e = sym (append-nil self.funds)

moved_by_message :
    (w : World) (self : PendingSubmsg) (m : CosmosMsg) {ty : SubmsgType} {self' : PendingSubmsg}
    → self.msg ≡ m
    → process_and_get_msg_type w self ≡ (ok ty, self')
    → ty ≢ SubmsgType.unknown
    → self'.funds ≡ moved w m
unfolding process_and_get_msg_type process_bank_type process_execute_type
moved_by_message w self (CosmosMsg.bank (BankMsg.send to_address amount)) is_msg e known =
    ground (arith, is_msg, push_funds-append [] amount)
moved_by_message w self (CosmosMsg.bank (BankMsg.burn amount)) is_msg e known =
    ground (arith, is_msg, push_funds-append [] amount)
moved_by_message w self (CosmosMsg.wasm (WasmMsg.execute contract msg funds)) is_msg e known =
    elim (Result-cases (w.from_binary msg)) [
      | inl (decoded, q) ↦
          let self1 : PendingSubmsg = record self {
            contract_addr = some contract;
            binarymsg = some msg;
            funds = funds;
          } in
          ground (arith, is_msg, q, cw20_type-funds self1 contract decoded refl)
      | inr failed ↦ absurd (ground arith)
    ]
moved_by_message w self _ is_msg e known = absurd (known (ground arith))

-- When a pending message is given a known type, the coins that it then holds are those that the
-- message itself moves: the coins of a bank message, or the funds of a call and then the tokens of
-- its cw20 message. What it held before, such as the funds that the sender has attached, is dropped.
pub process_and_get_msg_type-moved :
    (w : World) (self : PendingSubmsg) {ty : SubmsgType} {self' : PendingSubmsg}
    → process_and_get_msg_type w self ≡ (ok ty, self')
    → ty ≢ SubmsgType.unknown
    → self'.funds ≡ moved w self.msg
process_and_get_msg_type-moved w self e known = moved_by_message w self self.msg refl e known
