-- ===== src/RsHost/Inv.antt =====
-- What holds of the Reed-Solomon host between two packets, and the packet handler over such a state.
use openmc.Common.{
  ℕ, ◌≤◌, ◌<◌, ◌^◌, ◌≡◌, ◌⊎◌, false, List, arith, ◌==◌, if◌then◌else◌, length, add16, le→ltb,
  pos→ne, leb-false,
}
use openmc.Env.{Env}
use openmc.RsHost.{
  Host, GenerationState, k_data, max_pkt_len, max_parity, start_generation, overflow_generation,
  store_packet, complete_generation, send_original, accept_packet, handle_ip_packet,
}

-- A generation that was handed over is full, and its packets have a valid length.
pub record IsFull (g : GenerationState) : Type 0 where
  pub all : g.count ≡ k_data
  pub len_pos : 0 < g.original_len
  pub len_le : g.original_len ≤ max_pkt_len
  pub id_fits : g.gen_id < 2 ^ 16

pub record IsValid (h : Host) : Type 0 where
  pub count_lt : h.cur_gen.count < k_data
  pub len_pos : (h.cur_gen.count ≡ 0) ⊎ (0 < h.cur_gen.original_len)
  pub len_le : h.cur_gen.original_len ≤ max_pkt_len
  pub id_fits : h.cur_gen.gen_id < 2 ^ 16
  pub repairs_le : h.parity_symbols ≤ max_parity
  pub pending : (h.pending_rs ≡ false) ⊎ IsFull h.pending_gen

-- The generation and the index that the next packet, of length `len`, gets.
abbrev pub next_gen : ℕ → Host → ℕ
next_gen len h =
    if h.cur_gen.count == 0
    then add16 h.cur_gen.gen_id 1
    else (if h.cur_gen.original_len == len then h.cur_gen.gen_id else add16 h.cur_gen.gen_id 1)

abbrev pub next_index : ℕ → Host → ℕ
next_index len h =
    if h.cur_gen.count == 0
    then 0
    else (if h.cur_gen.original_len == len then h.cur_gen.count else 0)

abbrev pub prepared : ℕ → Host → Host
prepared len h = record h {
  cur_gen = record h.cur_gen {
    gen_id = next_gen len h;
    count = next_index len h;
    original_len = len;
  };
}

-- The two tests at the head of the handler: no generation is full when a packet arrives.
pub overflow-start :
    (len : ℕ) (h : Host)
    → IsValid h
    → overflow_generation len (start_generation len h) ≡ prepared len h
unfolding start_generation overflow_generation
overflow-start len h v = ground arith

pub next_index-lt : (len : ℕ) (h : Host) → IsValid h → next_index len h < k_data
next_index-lt len h v = ground arith

module _ (env : Env) (encode_rs : List ℕ → List ℕ) where
  -- The packet with its slot, copied and sent.
  abbrev pub stored : List ℕ → ℕ → Host → Host
  stored pkt t_nfq h =
      send_original env encode_rs pkt (next_index (length pkt) h) t_nfq
        (store_packet pkt (prepared (length pkt) h))

  accept-stored :
      (pkt : List ℕ) (t_nfq : ℕ) (h : Host)
      → next_index (length pkt) h < k_data
      → accept_packet env encode_rs pkt t_nfq (prepared (length pkt) h)
        ≡ complete_generation (stored pkt t_nfq h)
  unfolding accept_packet
  accept-stored pkt t_nfq h lt = rw (leb-false k_data _ lt)

  pub handle-stored :
      (pkt : List ℕ) (t_nfq : ℕ) (h : Host)
      → IsValid h
      → 0 < length pkt
      → length pkt ≤ max_pkt_len
      → handle_ip_packet env encode_rs pkt t_nfq h ≡ complete_generation (stored pkt t_nfq h)
  unfolding handle_ip_packet
  handle-stored pkt t_nfq h v pos le =
      rw
        (
          pos→ne (length pkt) pos,
          le→ltb max_pkt_len (length pkt) le,
          overflow-start (length pkt) h v,
        )
        (accept-stored pkt t_nfq h (next_index-lt (length pkt) h v))

-- The lengths that `handle_ip_packet` refuses.
abbrev pub IsBadLength : ℕ → Type 0
IsBadLength n = (n ≡ 0) ⊎ (max_pkt_len < n)

pub valid_length-cases : (n : ℕ) → IsBadLength n ⊎ ((0 < n) × (n ≤ max_pkt_len))
valid_length-cases n = ground arith

pub handle-bad :
    (env : Env) (encode_rs : List ℕ → List ℕ) (pkt : List ℕ) (t_nfq : ℕ) (h : Host)
    → IsBadLength (length pkt)
    → handle_ip_packet env encode_rs pkt t_nfq h ≡ h
unfolding handle_ip_packet
handle-bad env encode_rs pkt t_nfq h bad = ground arith
