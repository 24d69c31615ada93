-- ===== src/Config/Port.antt =====
-- The port of a test.
