-- ===== src/Api.antt =====
-- The HTTP layer (apps/api/src/anime_api): streaming, authentication, the repository and the routes.
pub mod Sse
pub mod Auth
pub mod Clerk
pub mod DeleteAccount
pub mod Repository
pub mod Routes
pub mod Middleware
