-- ===== src/Code.antt =====
-- smartbench/graph/schema.py: the graph of code entities, its queries, its expansion and its serialised form.
pub mod Schema
pub mod Graph
pub mod Expand
pub mod Loading
pub mod Indexed
pub mod Queries
pub mod Merge
pub mod Keeps
pub mod Subgraph
pub mod Expanded
pub mod RoundTrip
