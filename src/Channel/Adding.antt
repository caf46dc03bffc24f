-- ===== src/Channel/Adding.antt =====
-- What adding a channel does to the list of channels.
