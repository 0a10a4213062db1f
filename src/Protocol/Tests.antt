-- ===== src/Protocol/Tests.antt =====
-- The helpers of the protocol at the values that the program uses.
