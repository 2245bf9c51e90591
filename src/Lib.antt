-- ===== src/Lib.antt =====
-- A library about the SSTP engine of this repository: the C code under sstp/ that frames, builds,
-- reads and answers the packets of a VPN call over SSTP ([MS-SSTP]) for an iOS packet tunnel.
--
-- The parts and their files:
--
-- - Base: names and lemmas that the others share. Base.Results is status_t (sstp/sstp-common.h);
--   Base.Memory is reading and writing bytes and 16-bit words of an array; Base.Bits is the algebra
--   of the bitwise operations.
-- - Hdlc: the HDLC framing of PPP frames (sstp/sstp-fcs.c): sstp_frame_check, sstp_frame_encode and
--   sstp_frame_decode. Hdlc.Checksum and Hdlc.Residue are about the checksum, Hdlc.Stuffing about
--   the encoder, Hdlc.RoundTrip, Hdlc.Line and Hdlc.Sound about the decoder.
-- - Buff: the buffers (sstp/sstp-buff.c): sstp_buff_space, _reset, _print and _create.
-- - Packet: SSTP packets in a buffer (sstp/sstp-packet.c): sstp_pkt_init and sstp_pkt_attr build a
--   packet, sstp_pkt_parse and the readers take one apart. Packet.Format describes control packets
--   as values and as bytes, and `Holds` ties a buffer to such a value. Packet.Begin is about
--   sstp_pkt_init, Packet.Data about data packets, Packet.Build about sstp_pkt_attr, Packet.Parse
--   about packets that are read back, Packet.Faults and Packet.Bounds about what sstp_pkt_parse
--   does with others.
-- - Cmac: the compound MAC of the crypto binding (sstp/sstp-cmac.c), for the OpenSSL 1.1 that the
--   repository bundles.
-- - State: the state machine of a call (sstp/sstp-state.c). State.Handlers is what it does with a
--   packet or a time-out (sstp_state_recv and what that calls), State.Calls the packets it sends
--   (sstp_state_start, sstp_state_accept, the echo and disconnect packets). State.Echo,
--   State.Connect, State.Binding, State.Accept and State.Closing are about them, State.Reason about
--   the reason that is given for the end of a call.
-- - Mppe: the encryption of IP packets in the embedded PPP peer (sstp/ios-pppd.c: mppe_rekey,
--   mppe_init_keys, ppp_send_ip_plain_or_mppe, handle_mppe, and the header that ppp_dispatch
--   reads), with the derivation of keys in sstp/sstp-mschapv2.c. Mppe.Sync is about the keys of
--   both ends, Mppe.Transfer about packets on the way.
-- - Mschap: the response to an MS-CHAPv2 challenge (sstp/sstp-mschapv2.c) in Mschap.Response, and
--   the MPPE keys (sstp/sstp-chap.c) in Mschap.Keys.
-- - Ppp: the embedded PPP peer (sstp/ios-pppd.c). Ppp itself has its state and its queue of
--   packets (ppp_enqueue_raw, ppp_flush_start, ppp_send_complete), Ppp.Requests the requests it
--   sends, Ppp.Handlers what it does with a frame (ppp_dispatch and what that calls),
--   Ppp.Options their options, Ppp.Entry the functions that the client calls. Ppp.Item, Ppp.Fifo
--   and Ppp.Drain are about the queue; Ppp.Safe, Ppp.LinkUp, Ppp.Lengths, Ppp.Handled,
--   Ppp.Dispatch and Ppp.Runs about all runs of the peer; Ppp.Open about a link without
--   authentication; Ppp.Address about the options of IPCP.
-- - Stream: the TLS connection (sstp/sstp-stream.c). Stream itself receives (sstp_stream_recv_sstp,
--   sstp_stream_recv_http), Stream.Send has the send queue (sstp_stream_send, sstp_send_cont).
--   Stream.Receive, Stream.Http and Stream.Short are about the first, Stream.Sending about the
--   second.
-- - Pppd: the external pppd of the command line client (sstp/sstp-pppd.c). Pppd itself has the
--   context, sstp_pppd_send, and what is looked for in the packets (sstp_pppd_check_auth,
--   sstp_pppd_ipup); Pppd.Process the way to the server (ppp_process_data, ppp_send_complete,
--   sstp_pppd_recv), Pppd.Launch the life of the helper (sstp_pppd_create, _start and _stop),
--   Pppd.Tls the sender of Stream.Send below it. Pppd.Pending, Pppd.Frames, Pppd.Forwarded,
--   Pppd.Ends and Pppd.Forward are about the packets that wait and are sent, Pppd.Drain about
--   the throttle, Pppd.Down about sstp_pppd_send, Pppd.Watch about authentication.
-- - Http: the HTTP request and its response (sstp/sstp-http.c: sstp_http_send_hello in
--   Http.Request, sstp_recv_hello_complete; sstp/sstp-buff.c: sstp_http_get in Http.Response).
--   Http.Proxy is the rest of the file: the context, the steps of the handshake, and the proxy
--   (sstp_http_proxy, and sstp_recv_proxy_complete, which Http.ProxyText is about).
-- - Ios: the session that the tunnel drives (sstp/sstp-ios.c). Ios itself has the session and what
--   it reports (sstp_ios_set_stage, sstp_ios_fail_ex), Ios.Errors the contract of stages and codes
--   (sstp/sstp-ios-error.c). Ios.Start is sstp_ios_session_start_ex, Ios.Connect and Ios.Trust what
--   follows the handshakes (ios_connected, ios_http_done, ios_evaluate_system_trust), Ios.Pin the
--   pinned certificate, Ios.Link the callbacks of the peer and of the state machine (ios_pppd_cb,
--   ios_state_cb), Ios.Inject the way of IP packets into the loop, and Ios.Run the loop.
--   Ios.Contract, Ios.Outcomes, Ios.Handshakes, Ios.Reports, Ios.Started and Ios.Lifetime are about
--   what a session reports, Ios.Keys and Ios.Ready about the peer and the state machine together,
--   Ios.PinChecks, Ios.Pinned and Ios.Chain about trust, Ios.Queue and Ios.Race about the packets.
-- - Api: the messages between the plugin of pppd and the client (sstp/sstp-api.c). Api.Attributes
--   and Api.RoundTrip are about their attributes.
-- - Url: sstp_url_parse (sstp/sstp-util.c), and Url.Address about host and port.
--
-- State machine, packets, buffers and MAC are composed as in the source: State.Calls builds its
-- packets with pkt_init and pkt_attr in the context's `tx_buf`, State.Handlers reads `rx_buf` with
-- pkt_parse, and the MAC is taken over the packet with cmac_result. Ios.Link drives both the state
-- machine of State and the peer of Ppp, with the keys of Mschap; Ios.Start reads its URL with
-- Url.url_parse. Pppd.Process reads its frames with Hdlc.frame_decode and makes data packets of
-- them with pkt_init and pkt_update.
--
-- How C is read: numbers are natural numbers and carry the width of their type where it shows; an
-- int is its 32-bit pattern. An array is the list of its bytes, and a pointer into it is an offset.
-- An access outside of an array, or through NULL, gives `none`. Results of functions are values of
-- Status. Calls out of the engine (the stream, the callbacks, the certificate hash, calloc, the
-- HMAC of OpenSSL) are the fields of State.Env; what they answer may depend on everything that was
-- done before, which the context keeps as a list of actions. For the PPP peer they are the fields
-- of Ppp.World: the stream, memory, the layer above, random bytes, and the ciphers and hashes of
-- OpenSSL, of which Mppe and Mschap have those they use as parameters. For Stream they are SSL_read
-- and SSL_write, with what OpenSSL documents of them as hypotheses; for Http strtoul, sscanf and
-- the base64 encoder; for Pppd what notify does to the stream, and the answers of the task and the
-- files in Pppd.Launch.System. For Ios they are the fields of Parts, Answers, Trust and Resources.
-- A function of Ios ends by its return, by longjmp, or by an access outside of an array or through
-- NULL. What the state machine and the peer do between two callbacks of a run is left open: any
-- state of them may follow.
--
-- Fuel: the second loop of sstp_frame_decode has the length of the rest of the line as fuel.
-- Each of its rounds takes a character or more, so that where the fuel ends the line has ended
-- too, and the next read is outside of it. The loop of sstp_pkt_parse runs as often as the
-- packet says. The loop of handle_mppe has 4096 rounds, as many as there are counts. The loops
-- over the options of an IPCP packet have a round for each byte, and each round that goes on
-- takes two bytes at least. The loops of Stream have more rounds than bytes to read or to write,
-- and each round that goes on moves a byte or more. The loop of ios_inject_cb has more rounds
-- than there are bytes, and each that goes on takes four or more. That of sstp_api_attr_parse
-- has more rounds than the length, and each goes on by four or more. The loop of
-- ppp_process_data has more rounds than bytes that wait, and each that goes on takes a byte or
-- more.
--
-- Not modelled: the set-up of TLS and the loading of CA files, the routes, processes, logs and
-- dumps around the engine, the callbacks and options of the command line client and its socket for
-- the plugin, the Objective-C application and tunnel, and the bundled libraries. The release of
-- memory has no counterpart here.
pub mod Base
pub mod Api
pub mod Buff
pub mod Cmac
pub mod Hdlc
pub mod Http
pub mod Ios
pub mod Mppe
pub mod Mschap
pub mod Packet
pub mod Ppp
pub mod Pppd
pub mod State
pub mod Stream
pub mod Url
