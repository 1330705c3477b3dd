-- ===== src/Console.antt =====
-- forward-manager/frontend/src/App.tsx, the web console of the manager.
pub mod Text
pub mod Sets
pub mod State
pub mod Audit
pub mod Handlers
pub mod Steps
pub mod View
pub mod Elements
pub mod Page
pub mod Samples
mod Tests
mod PageTests
