-- ===== src/Ping/Requests.antt =====
-- The requests of Lab2017/ping/send_v4.c have a correct checksum.
