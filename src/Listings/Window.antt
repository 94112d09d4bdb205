-- ===== src/Listings/Window.antt =====
-- A new listing and its pickup window.
