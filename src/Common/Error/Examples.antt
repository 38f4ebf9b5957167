-- ===== src/Common/Error/Examples.antt =====
-- The response to a concrete error.
