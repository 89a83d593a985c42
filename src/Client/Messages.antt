-- ===== src/Client/Messages.antt =====
-- The ends of src/cyberctl.c by each of its names.
