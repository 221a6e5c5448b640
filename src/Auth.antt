-- ===== src/Auth.antt =====
-- src/auth/user_store.ts, with the handlers of src/api/index.ts that sign users up and in.
pub mod Users
pub mod Handlers
pub mod UserLaws
pub mod SignIn
