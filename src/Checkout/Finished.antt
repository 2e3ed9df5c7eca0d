-- ===== src/Checkout/Finished.antt =====
-- Which revision a run ends at.
