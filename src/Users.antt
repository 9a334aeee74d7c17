-- ===== src/Users.antt =====
-- app/domain/users: roles, users, and the tokens that stand for a login or a mailed link.
pub mod Role
pub mod Permissions
pub mod User
pub mod Token
mod Examples
