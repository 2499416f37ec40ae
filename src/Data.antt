-- ===== src/Data.antt =====
-- aegis/data/reference.py: the ownership graph of the OFAC 50% rule and the travel-rule thresholds.
-- The JSON file that the graph is loaded from enters as the graph itself.
pub mod Reference
