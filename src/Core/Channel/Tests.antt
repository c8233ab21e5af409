-- ===== src/Core/Channel/Tests.antt =====
-- Runs of the channel code on small inputs.
