-- ===== src/Resp/Parser/Errors.antt =====
-- An error of the reader that is no end of the stream, with the context alive.
