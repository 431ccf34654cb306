-- ===== src/Lib.antt =====
-- OpenMC, the multi-connectivity packet processing of the repository. A processing host takes
-- packets from an NFQUEUE, sends each at once over one of two paths as a data symbol, and adds
-- repair symbols computed over a block of packets; an edge receiver forwards the data symbols
-- that arrive and rebuilds lost packets from the repair symbols. There is a pair of programs for
-- Reed-Solomon coding and a pair for RaptorQ, a traffic generator that offers paced datagrams
-- and a destination server that counts them.
--
-- Common holds what the modules share: Boolean tests, lists and arrays over the native numbers,
-- counted loops and unsigned arithmetic with its wrap-around written out. Env is what the
-- programs take from the operating system: the n-th reading of CLOCK_MONOTONIC and whether the
-- n-th sendto succeeds are functions of n, so that a theorem for every Env is a theorem for
-- every behaviour of the clock and the sockets.
--
-- Wire is the two symbol headers, struct fec_fragment_hdr and struct rq_data_hdr, as the hosts
-- write them and the receivers read them (src/processing_host/openmc_rs.c and openmc_rq.c,
-- src/edge_receiver/edge_receiver_rs.c and edge_receiver_rq.c).
--
-- RsHost is src/processing_host/openmc_rs.c: send_fragment, mark_generation_ready,
-- flush_generation and handle_ip_packet, and in RsHost/Loop nfq_cb and the receive loop of main
-- with the one-place slot pending_gen between the callback and the flush. Its state is the
-- record Host of the file-scope variables; the buffer of a generation is a function from the
-- byte's offset. RsHost/Inv and Forward have the invariant and what a packet sends, Collect and
-- Refine the abstract view of a generation as a list of packets, Parity the repair symbols,
-- Queue the slot. libfec is not under src/: encode_rs is a parameter from the data symbols of a
-- column to its parity symbols.
--
-- RsReceiver is src/edge_receiver/edge_receiver_rs.c: the table of 256 generations
-- (get_gen_state), forward_ip_packet and application_payload_bytes; RsReceiver/Process has
-- try_decode_generation and process_generation, RsReceiver/Fragment handle_fragment and the
-- receive loop. A pointer into the table is the pair Ctx of the entry and the rest of the state,
-- and store_gen puts the entry back. decode_rs_char of libfec is the parameter decode_rs, from a
-- codeword and the positions of the erasures to the codeword and the positions after the call;
-- copy_back reads the positions again, as the source does. The theorem on recovery has two
-- hypotheses on it, in RsReceiver/Code: Corrects, the documented capability to correct wrong
-- symbols and erasures, in a form that does not depend on how libfec counts the positions, and
-- Reports, that the positions given are still among those read after the call. Columns has what
-- is copied back, and AnyDecoder what holds of every decoder. Inv, Preserve, Report, Table and
-- Safety have the invariant of the table, Loops what the forwarding loops mark, Recover, Decoder
-- and Recovery the recovery of lost packets.
--
-- RqReceiver is src/edge_receiver/edge_receiver_rq.c: the table of 1024 blocks (get_block), the
-- list of completed blocks and forward_ip_packet_counted; RqReceiver/Decode has finalize_block
-- and try_decode_and_forward, RqReceiver/Symbol handle_rq_symbol and the receive loop. lcrq is
-- not under src/: the record Codec has the two calls rq_init and rq_decode. The memory of a
-- block's stored symbols is a function from the offset without an end, so that a write behind
-- the end can be stated (Bounds). Late, Stored and LateLoop are about symbols that arrive after
-- their block was completed. calloc and malloc are taken to succeed. The type of forwarded
-- packets and the metrics line, which the two receivers share, stand in RsReceiver.
--
-- Decision is the decision engine of src/processing_host/openmc_rq.c: struct decision_ops as the
-- record DecisionOps, its three implementations (default, quality, adaptive) as the constructors
-- of Engine, their functions under the source's names, create_engine for the choice in main;
-- Decision/Sources has set_synthetic_metrics, fetch_metrics_from_file and the choice of the
-- source in the receive loop, where sscanf with a format is the parameter scan. Double is the
-- interface of the doubles: there are no floating-point numbers here, so every theorem holds for
-- any type with these operations, and only the one on monotony takes a law (the transitivity of
-- <=).
--
-- RqHost is the rest of that file: the table of 1024 blocks with alloc_new_block and
-- send_rq_symbol, RqHost/Packet handle_ip_packet, RqHost/Loop nfq_cb and the receive loop. It
-- sees the engine through DecisionOps only, under the laws EngineLaws (RqHost/Inv), which
-- RqHost/Policy proves of the engine of Decision. lcrq and calloc are the record RqCodec of
-- functions of the call's number and the bytes encoded. The handler calls itself after a change
-- of length; it runs on fuel, and the receive loop gives fuel for one such call, which
-- RqHost/Preserve shows to be enough. RqHost/Sent says what is sent, RqHost/Fill and
-- RqHost/Block what the packets of a whole block send.
--
-- CommandLine is the option parsers of the four coding programs: parse_u16 and copy_option
-- (set_string in two of the files), one module of definitions for each program (RqHostArgs,
-- RsHostArgs, RsReceiverArgs, RqReceiverArgs) and one of what an accepted command line gives.
-- Outcome has the accepted configuration, return -1 and the two exits that print; strtoul,
-- inet_pton, if_nametoindex and the sizes of system headers are the record Libc, and getopt_long
-- with a program's table of options is a function from the arguments to its results.
-- CommandLine/RqHostMain joins the parser of openmc_rq.c to the creation of its engine and its
-- receive loop.
--
-- Link joins the two ends of the RaptorQ path: the source symbols as RqHost sends them
-- (source_datagrams of RqHost/Sent), in the receive loop of RqReceiver, and Link/EndToEnd the
-- packets of a block from the host's callback to the receiver's output. The network in between
-- hands the datagrams over in order and loses none.
--
-- TrafficGen is src/applications/traffic_generator.c: the option checks, the target and the
-- paced loop of main, one function per part of a round; Outcome says whether the loop goes on or
-- which break leaves it. The loop runs on fuel; TrafficGen/Ends gives the fuel that is enough,
-- one round more than the slots that begin in the window, TrafficGen/Scheduler the two snapshots
-- of /proc/self and their differences, with fscanf and sscanf as parameters, TrafficGen/Slots
-- the arithmetic of the slots and TrafficGen/Pacing the invariant.
--
-- DestServer is src/applications/destination_server.c: run_reset, note_seq, the change of run,
-- print_run_summary with its sample of missing numbers and its blocks of eight, and the receive
-- loop.
--
-- Every counter is a natural number that is reduced where the source's addition wraps. Not
-- modelled: the options of the destination server, usage texts, sockets, signals, printed
-- statistics and CSV summaries, which are input and output or floating point; the path monitor,
-- which is Python; the legacy copies, scripts and documents.
pub mod Common
pub mod Env
pub mod CommandLine
pub mod Double
pub mod Wire
pub mod RsHost
pub mod RsReceiver
pub mod Decision
pub mod RqHost
pub mod RqReceiver
pub mod Link
pub mod TrafficGen
pub mod DestServer
