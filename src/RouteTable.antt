-- ===== src/RouteTable.antt =====
-- internal/routetable: the resolved table of routes, from which both the router and the published
-- document are derived.
pub mod Paths
pub mod Glob
pub mod Build
pub mod Sorting
pub mod Served
pub mod Slots
pub mod Publishing
pub mod Params
mod Scenarios
