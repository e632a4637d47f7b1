-- ===== src/Errors/Render/Tests.antt =====
-- The theorem on the error responses, at work on a path without a route.
use ix_gateway.Errors.Render.Documented.{Documented}
