-- ===== src/Oracle/Tests.antt =====
-- The oracle at a concrete node, which has one deposit that is not claimed yet.
