-- ===== src/Crypto.antt =====
-- fangorn/src/crypto: key vaults, and the clients that encrypt and that ask for decryption.
pub mod Gadgets
pub mod KeyVault
pub mod AppStore
pub mod Collect
pub mod Testnet
pub mod Encrypt
pub mod Decrypt
pub mod Handlers
