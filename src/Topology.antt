-- ===== src/Topology.antt =====
-- pkg/topology: the peer lists of the overlay.
pub mod PSlice
pub mod LightNode
pub mod Depth
