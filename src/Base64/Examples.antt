-- ===== src/Base64/Examples.antt =====
-- Digits and an input for src/base64.c.
