-- ===== src/Tests/Commanding.antt =====
-- Commands through the table.
