-- ===== src/Http/ProxyText.antt =====
-- What `sstp_recv_proxy_complete` of sstp/sstp-http.c makes of the response of a proxy.
