-- ===== src/Demo.antt =====
-- The demo that sends traces of a changing topology
-- (services/servicegraph-demo/src/servicegraph_demo/main.py).
pub mod Topology
pub mod Config
pub mod Loop
pub mod Tests
