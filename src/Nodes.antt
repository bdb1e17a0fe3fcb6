-- ===== src/Nodes.antt =====
-- src/nodes: nodes of the graph other than the tree ensembles.
pub mod Composite
pub mod OneHot
pub mod NaiveBayes
pub mod Linear
pub mod Dot
