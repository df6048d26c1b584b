-- ===== src/Session/Handshake.antt =====
pub mod Meeting
pub mod Opening
pub mod Completion
pub mod Reply
pub mod Agreement
