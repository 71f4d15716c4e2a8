-- ===== src/Examples.antt =====
-- Concrete placements, routers and cells, and the theorems applied to them.
mod Data
mod Machines
mod Placements
mod Routing
mod Resources
mod Controllers
mod Runs
