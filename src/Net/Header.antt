-- ===== src/Net/Header.antt =====
-- The checksum of the IPv4 headers that kernel/net.c sends.
