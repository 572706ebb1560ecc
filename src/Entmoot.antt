-- ===== src/Entmoot.antt =====
-- entmoot/src: the terminal client, as a state machine over key events. What it draws is not part of
-- the model.
pub mod Env
pub mod App
pub mod Submission
pub mod FileSelect
pub mod Encryption
pub mod Decryption
pub mod Intents
pub mod Keys
pub mod Run
pub mod Invariant
pub mod Leaving
pub mod Digits
pub mod Strings
pub mod Accepted
pub mod Honoured
pub mod Desk
pub mod Examples
pub mod AcceptedExamples
