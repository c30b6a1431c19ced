-- ===== src/OutboundForm/Read.antt =====
-- What each reader of the adapter makes of the wire, against the form's schema.
