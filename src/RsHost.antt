-- ===== src/RsHost.antt =====
-- The Reed-Solomon processing host, src/processing_host/openmc_rs.c: the state that the NFQUEUE
-- callback and the receive loop share, and the functions that change it. A function that writes
-- globals takes and returns the whole state. `encode_rs` stands for `encode_rs_char` of libfec with
-- the descriptor that `init_rs_codec` made: data symbols to parity symbols.
pub mod Loop
pub mod Inv
pub mod Forward
pub mod Collect
pub mod Refine
pub mod Parity
pub mod Queue
mod Tests
use openmc.Common.{
  ℕ, suc, ◌+◌, ◌-◌, ◌*◌, ◌%◌, ◌^◌, Bool, true, false, ◌&&◌, ◌||◌, not, List, [], ◌∷◌, ◌++◌, ltb,
  leb, ◌==◌, if◌then◌else◌, length, get_or, take, tabulate, blit, add16, add64, sub64,
}
use openmc.Env.{Env}
use openmc.Wire.{encode_fec_hdr, fec_hdr_size}

abbrev pub max_pkt_len : ℕ
max_pkt_len = 1500

abbrev pub k_data : ℕ
k_data = 8

abbrev pub max_parity : ℕ
max_parity = 32

pub record Stats : Type 0 where
  pub pkts_intercepted : ℕ
  pub pkts_forwarded : ℕ
  pub pkts_original : ℕ
  pub bytes_forwarded : ℕ
  pub bytes_original : ℕ
  pub generations_completed : ℕ
  pub enc_calls : ℕ
  pub enc_time_ns : ℕ
  pub nfq_pkts : ℕ
  pub nfq_latency_ns : ℕ

-- `data_buf` is the flat buffer of K_DATA * MAX_PKT_LEN bytes, as a function from the offset.
pub record GenerationState : Type 0 where
  pub gen_id : ℕ
  pub count : ℕ
  pub original_len : ℕ
  pub data_buf : ℕ → ℕ

-- The socket that a datagram leaves by.
pub data OutPath : Type 0 where
  path_a path_b : OutPath

pub record Datagram : Type 0 where
  pub path : OutPath
  pub bytes : List ℕ

-- The globals. `rs` tells whether the codec descriptor is not NULL; `reads` and `sends` count the
-- clock readings and the calls of `sendto`; `wire` holds what was sent, newest first.
pub record Host : Type 0 where
  pub cur_gen : GenerationState
  pub pending_gen : GenerationState
  pub pending_rs : Bool
  pub rs_dropped : ℕ
  pub parity_symbols : ℕ
  pub rs : Bool
  pub stats : Stats
  pub t_start_ns : ℕ
  pub t_end_ns : ℕ
  pub reads : ℕ
  pub sends : ℕ
  pub wire : List Datagram

-- The path of a fragment: data by the parity of its index, parity symbols by that of index - K_DATA.
unfoldable pub fragment_path : ℕ → ℕ → OutPath
fragment_path index type =
    if type == 0
    then (if index % 2 == 1 then path_b else path_a)
    else (if (index + 2 ^ 32 - k_data) % 2 == 1 then path_b else path_a)

-- The counters of a datagram that `sendto` took.
unfoldable pub count_sent : ℕ → ℕ → Stats → Stats
count_sent type len s = record s {
  pkts_forwarded = add64 s.pkts_forwarded 1;
  bytes_forwarded = add64 s.bytes_forwarded (fec_hdr_size + len);
  pkts_original = (if type == 0 then add64 s.pkts_original 1 else s.pkts_original);
  bytes_original = (if type == 0 then add64 s.bytes_original len else s.bytes_original);
}

-- The datagram that `send_fragment` builds: the header, then the first `len` bytes of the packet.
unfoldable pub fragment_datagram : ℕ → ℕ → ℕ → ℕ → List ℕ → Datagram
fragment_datagram gen_id index type len pkt = record {
  path = fragment_path index type;
  bytes =
      encode_fec_hdr
        (record { gen_id = gen_id; index = index; type = type; original_len = len; reserved = 0 })
      ++ take len pkt;
}

-- `pending_rs` guards the one slot for a completed generation; a second one is dropped.
unfoldable pub mark_generation_ready : GenerationState → Host → Host
mark_generation_ready g h =
    if h.pending_rs then record h { rs_dropped = add64 h.rs_dropped 1 } else record h {
      pending_gen = record {
        gen_id = g.gen_id;
        count = g.count;
        original_len = g.original_len;
        data_buf =
            λ k. if ltb k (k_data * g.original_len) then g.data_buf k else h.pending_gen.data_buf k;
      };
      pending_rs = true;
    }

-- Column `j` of a generation: byte `j` of each of the K_DATA packets.
abbrev pub column : GenerationState → ℕ → List ℕ
column g j = tabulate k_data (λ i. g.data_buf (i * g.original_len + j))

-- `len != original_len` ends a generation that is under way, and a fresh one starts.
unfoldable pub roll_generation : ℕ → Host → Host
roll_generation len h = record h {
  cur_gen = record h.cur_gen { gen_id = add16 h.cur_gen.gen_id 1; count = 0; original_len = len };
}

-- The first test of `handle_ip_packet`: start a generation, or roll over on a change of length.
unfoldable pub start_generation : ℕ → Host → Host
unfolding roll_generation mark_generation_ready
start_generation len h =
    if h.cur_gen.count == 0
    then record h {
      cur_gen = record h.cur_gen { gen_id = add16 h.cur_gen.gen_id 1; original_len = len };
    }
    else if h.cur_gen.original_len == len
    then h
    else roll_generation len (
        if not h.pending_rs && (h.cur_gen.count == k_data)
        then mark_generation_ready h.cur_gen h
        else h)

-- The second test: a full generation is rolled over.
unfoldable pub overflow_generation : ℕ → Host → Host
unfolding roll_generation mark_generation_ready
overflow_generation len h =
    if leb k_data h.cur_gen.count
    then roll_generation len (
        if not h.pending_rs && (h.cur_gen.count == k_data)
        then mark_generation_ready h.cur_gen h
        else h)
    else h

-- The copy into the generation buffer.
unfoldable pub store_packet : List ℕ → Host → Host
store_packet pkt h = record h {
  cur_gen = record h.cur_gen {
    data_buf =
        blit h.cur_gen.data_buf (h.cur_gen.count * h.cur_gen.original_len)
          (take h.cur_gen.original_len pkt) 0;
    count = h.cur_gen.count + 1;
  };
}

-- A generation with K_DATA packets is handed over, and the buffer is free again.
unfoldable pub complete_generation : Host → Host
unfolding mark_generation_ready
complete_generation h =
    if h.cur_gen.count == k_data
    then (let h' = mark_generation_ready h.cur_gen h in
        record h' { cur_gen = record h'.cur_gen { count = 0; original_len = 0 } })
    else h

module _ (env : Env) (encode_rs : List ℕ → List ℕ) where
  open env use {clock, send_ok}

  unfoldable pub send_fragment : ℕ → ℕ → ℕ → ℕ → List ℕ → Host → Host
  unfolding count_sent fragment_datagram
  send_fragment gen_id index type len pkt h =
      if send_ok h.sends
      then record h {
        sends = suc h.sends;
        wire = fragment_datagram gen_id index type len pkt ∷ h.wire;
        stats = count_sent type len h.stats;
      }
      else record h { sends = suc h.sends }

  -- Row `p` of the parity symbols: entry `p` of the code of each column.
  abbrev pub parity_row : GenerationState → ℕ → List ℕ
  parity_row g p = tabulate g.original_len (λ j. get_or (encode_rs (column g j)) p 0)

  -- `for (p = …; n more rounds)` of `flush_generation`
  unfoldable pub send_parity : GenerationState → ℕ → ℕ → Host → Host
  send_parity g p ℕ.zero h = h
  send_parity g p (suc n) h =
      send_parity g (suc p) n
        (send_fragment g.gen_id ((k_data + p) % 256) 1 (g.original_len % 2 ^ 16) (parity_row g p) h)

  -- The two clock readings around the encoder.
  unfoldable pub time_encode : Host → Host
  time_encode h = record h {
    reads = h.reads + 2;
    stats = record h.stats {
      enc_calls = add64 h.stats.enc_calls 1;
      enc_time_ns = add64 h.stats.enc_time_ns (sub64 (clock (h.reads + 1)) (clock h.reads));
    };
  }

  unfoldable pub count_completed : GenerationState → Host → Host
  count_completed g h =
      if g.count == k_data
      then record h {
        stats = record h.stats { generations_completed = add64 h.stats.generations_completed 1 };
      }
      else h

  unfoldable pub flush_generation : GenerationState → Host → Host
  unfolding count_completed time_encode
  flush_generation g h =
      let h' = count_completed g h in
      if g.count == 0
      then h'
      else if (g.count == k_data) && (ltb 0 h'.parity_symbols && h'.rs)
      then send_parity g 0 h'.parity_symbols (time_encode h')
      else h'

  -- The reading of the clock before the packet is sent, and the sample of the NFQUEUE latency.
  unfoldable pub send_original : List ℕ → ℕ → ℕ → Host → Host
  unfolding send_fragment
  send_original pkt index t_nfq h =
      let t_send = clock h.reads in
      let h' =
        send_fragment h.cur_gen.gen_id (index % 256) 0 (length pkt % 2 ^ 16) pkt
          (record h { reads = suc h.reads }) in
      record h' {
        stats = record h'.stats {
          nfq_pkts = add64 h'.stats.nfq_pkts 1;
          nfq_latency_ns = add64 h'.stats.nfq_latency_ns (sub64 t_send t_nfq);
        };
      }

  -- From `int index = cur_gen.count` on.
  unfoldable pub accept_packet : List ℕ → ℕ → Host → Host
  accept_packet pkt t_nfq h =
      if leb k_data h.cur_gen.count
      then h
      else complete_generation (send_original pkt h.cur_gen.count t_nfq (store_packet pkt h))

  unfoldable pub handle_ip_packet : List ℕ → ℕ → Host → Host
  handle_ip_packet pkt t_nfq h =
      if (length pkt == 0) || ltb max_pkt_len (length pkt)
      then h
      else accept_packet pkt t_nfq
          (overflow_generation (length pkt) (start_generation (length pkt) h))
