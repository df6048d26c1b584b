-- ===== src/Samples.antt =====
-- Concrete stand-ins for the packages that the program calls: an encoder and a toy cryptography.
-- They show that the assumptions of the theorems can be met, and let the model run in tests.
pub mod Encoder
pub mod Text
pub mod Messages
pub mod Backend
pub mod Vault
pub mod Directory
