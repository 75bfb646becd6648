-- ===== src/Client/Pushed/Tests.antt =====
-- A reply, and the theorem at it.
