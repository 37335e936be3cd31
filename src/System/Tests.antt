-- ===== src/System/Tests.antt =====
-- Runs of the interrupt controller.
