-- ===== src/Routetab.antt =====
-- pkg/routetab: the routes to nodes that are not neighbours, and the requests for them.
pub mod Table
pub mod Exchange
pub mod Pending
