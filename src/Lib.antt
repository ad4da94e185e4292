-- ===== src/Lib.antt =====
-- The verification library of seestar-remote.
--
-- seestar-remote reaches a telescope through a Kalay (TUTK) peer-to-peer session. kalay/session.go
-- opens a UDP session to the device; kalay/tunnelconn.go runs a DTLS connection over it, whose
-- records (kalay/dtls.go) carry the frames of a reliable transport, RDT (kalay/tunnel.go). The
-- payloads of the RDT data frames are one byte stream each way, in which P2PTunnel messages
-- multiplex TCP channels. One goroutine, `pump`, owns all of that: it puts arriving frames in order
-- (`Reassembler`), demultiplexes the messages (`PTunDemux`), and sends what the clients write
-- through the go-back-N sender (kalay/gobackn.go).
--
-- The files, and the code that they model:
--   Kalay/Rdt           kalay/tunnel.go: `AppendRDT` is append_rdt, `ParseRDTStream` parse_rdt_stream
--   Kalay/Channel       kalay/tunnel.go: `PTunDemux.Parse` is parse, `FrameTunnel` and
--                       `DeframeTunnel` are frame_tunnel and deframe_tunnel; the chunks and the
--                       demultiplexing of `pump` are data_chunk and demux_pass
--   Kalay/Reassembler   kalay/tunnel.go: `Reassembler`, its map of frames an association list;
--                       `Take` is take_seq, the other methods keep their names
--   Kalay/Inbound       kalay/tunnelconn.go: the part of an iteration of `pump` from the frames of
--                       `readRDT` to the messages that it routes, inbound_round
--   Kalay/GoBackN       kalay/gobackn.go: the sender's fields of `Tunnel` are the record Outflow,
--                       its methods keep their names; the framing loop of `pump` is fill_window
--   Kalay/Dtls          kalay/dtls.go: records, nonce, sealing; `sendRDT` and `readRDT` of
--                       kalay/tunnelconn.go are send_rdt and read_rdt
--   Kalay/Setup         kalay/tunnelconn.go: `setup`, its loop on the frames of each iteration
--   Kalay/Pump          kalay/tunnelconn.go: `pump`, an iteration composed of the sender, the inbound
--                       half, the channels, the keepalive and the stall recovery; pump_run is its loop
--   Kalay/Prf           kalay/dtls.go: `PHash` is p_hash, `PRF` prf
--   Kalay/Hello         kalay/tunnelconn.go: `serverHelloHasExt` is server_hello_has_ext
--   Kalay/Handshake     kalay/tunnelconn.go: the handshake of `OpenTunnel`, from the server's flight to the
--                       client's Finished
--   Kalay/Tunnel        kalay/tunnelconn.go: `route` and the opening and reading of channels
--   Kalay/Session       kalay/packets.go, kalay/rdt.go and kalay/session.go: the session packets,
--                       `WriteTo` is write_to, and `ReadFrom` on one packet read_data
--   Kalay/Address       kalay/address.go: `ParseAddrRecords` is parse_addr_records
--   Kalay/Transcode     kalay/transcode.go and kalay/perm_tables.go: the bit permutations
--   Kalay/Control       kalay/control.go: the obfuscation of payloads
--   Tnauth              internal/tnauth/coordpkt.go and internal/tnauth/relaypkt.go: the packets that
--                       set a session up through a relay; `bytes` of `coordSetup` is coord_setup
--   Tnauth/Auth         internal/tnauth/tnauth.go: `BuildPrecheck0201Fixed` is build_precheck,
--                       `DecodeReply` decode_reply, `ParseReply` parse_reply
--   Tnauth/Relay        internal/tnauth/relay.go: the channel; its functions keep their names
--   Tnauth/Coord        internal/tnauth/coord.go: parse_0103 and build_0408
--   Download            cmd/download/main.go: the filters, `walk`, `streamWalk` as stream_walk, the main
--                       loop as download, and the final verification as verify
--   Download/Fetch      cmd/download/main.go: `fetchFile`, its workers' turns and its ticks in any order
--   Upload              cmd/upload/main.go: `mkdirP` is mkdir_p, `writeOneFile` write_one_file
--   Proxy               cmd/proxy/main.go: the client of `forwarder`, and `readLoop` and `serve` as
--                       the locked sections that touch it; a connection is a number
--   Kalay/Examples, Tnauth/Examples, Download/Examples, Upload/Examples,
--   Proxy/Examples: runs on concrete inputs
--   Base                what the others share: bytes, lists, association lists, and Scan, a loop
--                       that consumes a byte string round by round
--
-- Bytes are numbers below 256, with the conversions of Go written out as remainders; sequence
-- numbers are numbers with their wrap-around at 2 ^ 64 written out. Loops over a buffer run on its
-- length as fuel, and each round takes a byte at least; the loop that consumes frames runs on the
-- number of frames held, and each round takes one; the loop that counts `cum` up runs on the number
-- of entries above it.
--
-- A walk over a share goes down as many levels as an argument says; the depth of the tree that the
-- share shows is meant for it. The main loop of the download runs on the sequence of its sessions,
-- and the reading loops on the datagrams that arrive before their deadlines.
--
-- Parameters: the cipher of a key (Dtls.Aead), SHA-256, HMAC-SHA256, the RSA key of the masters, the
-- results of the key exchange, the floating-point numbers of the congestion window
-- (GoBackN.Float64), the clock (an argument `now`, read once in an operation or an iteration of
-- `pump`), the limits that the environment sets (GoBackN.Limits), and a share of the SMB package, as
-- what its `ReadDir` and `Mkdir` return and how each fetch ends. What a fetch that was given up on
-- still does in the background is left out, and so are sleeps between sessions. `strings.ToLower` is
-- that of ASCII.
--
-- Not modelled: sockets, the cryptography of other packages, the rendezvous of `Dial`, the HTTP calls of
-- seestar/, the listener, mappings and replyError of cmd/proxy, the prompts and flags of cmd/ and
-- internal/cli, and debug output.
pub mod Base
pub mod Kalay
pub mod Tnauth
pub mod Download
pub mod Upload
pub mod Proxy
