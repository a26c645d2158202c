-- ===== src/Capabilities.antt =====
-- What frontends can do and what rules ask of them: smartbench/ir/capabilities.py and
-- `SemanticIR.assess_requirements` of smartbench/ir/schema.py.
pub mod Set
pub mod Assess
