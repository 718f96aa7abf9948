-- ===== src/Auth.antt =====
-- app/service/auth_service.py: who an actor is, and what the actor's role allows.
mod Tests
pub mod Roles
pub mod Tokens
pub mod Levels
