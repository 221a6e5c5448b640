-- ===== src/Api.antt =====
-- src/api/index.ts: the handlers of the HTTP interface, each from the request to the answer. Express,
-- its middleware and the rate limits are not under src/.
pub mod Fields
pub mod Faucet
pub mod FaucetLaws
pub mod Submit
pub mod Registry
pub mod RegistryLaws
pub mod VerifyLaws
pub mod RpcForms
pub mod Rpc
pub mod Lookups
pub mod LookupLaws
pub mod RpcLaws
pub mod SubmitLaws
pub mod Pages
pub mod PageLaws
