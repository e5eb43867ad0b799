-- ===== src/Users/Schemas.antt =====
-- The request models of app/users/schemas, as functions from what a client sends to what a handler
-- gets.
pub mod Auth
pub mod Profile
pub mod SessionAuth
pub mod Registration
pub mod Passwords
