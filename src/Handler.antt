-- ===== src/Handler.antt =====
-- internal/handler: the request path of the persona service.
pub mod CacheDecorator
pub mod Clean
pub mod TransformUpi
pub mod Transform
pub mod Section
pub mod Phone
pub mod Orchestrator
