-- ===== src/Types.antt =====
-- The data of the contract: the messages and coins of cosmwasm_std and cw20, and the structs and
-- enums of src/*.rs, with their constructors.
mod Cosmos
mod Dex
mod Config
mod Error
mod Message
pub use Cosmos.*
pub use Dex.*
pub use Config.*
pub use Error.*
pub use Message.*
