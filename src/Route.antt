-- ===== src/Route.antt =====
-- internal/route: route names, targets behind a route, and the path patterns of an exposure.
pub mod Name
pub mod Target
pub mod Pattern
