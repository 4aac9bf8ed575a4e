-- ===== src/Linking/Tables/Ends.antt =====
-- Every function of the library is followed to its end.
