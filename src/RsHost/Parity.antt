-- ===== src/RsHost/Parity.antt =====
-- `flush_generation` of openmc_rs.c: the repair symbols that leave for a completed generation.
use openmc.Common.{
  ℕ, zero, suc, ◌+◌, ◌*◌, ◌%◌, ◌^◌, ◌≤◌, ◌<◌, ◌≡◌, refl, ◌⊎◌, true, List, [], ◌∷◌, map, arith,
  if◌then◌else◌, get_or, tabulate, tabulate_from, tabulate_ext, tabulate-map, add64, ◌∙◌, ap,
}
use openmc.Env.{Env, emit}
use openmc.RsHost.{
  Host, GenerationState, Datagram, k_data, max_parity, column, parity_row, fragment_datagram,
  send_fragment, send_parity, time_encode, count_completed, flush_generation,
}
use openmc.RsHost.Inv.{IsFull}
use openmc.RsHost.Collect.{Collector, Holds}

-- Byte `j` of each packet.
abbrev pub column_of : List (List ℕ) → ℕ → List ℕ
column_of packets j = map (λ p. get_or p j 0) packets

-- Repair symbol `p` of packets of length `t`: entry `p` of the code of each column.
abbrev pub parity_of : (List ℕ → List ℕ) → List (List ℕ) → ℕ → ℕ → List ℕ
parity_of encode_rs packets t p = tabulate t (λ j. get_or (encode_rs (column_of packets j)) p 0)

-- The repair fragments `p`, `p + 1`, …, `n` of them.
abbrev pub parity_datagrams : (List ℕ → List ℕ) → ℕ → List (List ℕ) → ℕ → ℕ → ℕ → List Datagram
parity_datagrams encode_rs gen packets t p n =
    tabulate_from p n
      (λ q. fragment_datagram gen (k_data + q) 1 t (parity_of encode_rs packets t q))

column-Holds :
    (g : GenerationState) (c : Collector) (j : ℕ)
    → Holds g c
    → g.count ≡ k_data
    → j < g.original_len
    → column g j ≡ column_of c.packets j
column-Holds g c j v full lt =
    tabulate_ext k_data (λ i. g.data_buf (i * g.original_len + j))
      (λ i. get_or (get_or c.packets i []) j 0) (λ i h. v.bytes i j (omega (arith, v.number)) lt)
    ∙ tabulate-map (λ p. get_or p j 0) k_data c.packets [] 0 (omega (arith, v.number))

-- What sending leaves alone.
pub record Kept (h h' : Host) : Type 0 where
  pub cur : h'.cur_gen ≡ h.cur_gen
  pub pending : h'.pending_gen ≡ h.pending_gen
  pub flag : h'.pending_rs ≡ h.pending_rs
  pub dropped : h'.rs_dropped ≡ h.rs_dropped
  pub repairs : h'.parity_symbols ≡ h.parity_symbols
  pub codec : h'.rs ≡ h.rs
  pub completed : h'.stats.generations_completed ≡ h.stats.generations_completed

module _ (env : Env) (encode_rs : List ℕ → List ℕ) where
  open env use {send_ok}

  row-Holds :
      (g : GenerationState) (c : Collector) (p : ℕ)
      → Holds g c
      → g.count ≡ k_data
      → parity_row env encode_rs g p ≡ parity_of encode_rs c.packets g.original_len p
  row-Holds g c p v full =
      tabulate_ext g.original_len _ _
        (λ j h. ap (λ col. get_or (encode_rs col) p 0) (column-Holds g c j v full h))

  send-wire :
      (gen index type len : ℕ) (pkt : List ℕ) (h : Host)
      → ((send_fragment env encode_rs gen index type len pkt h).wire
          ≡ (if send_ok h.sends then fragment_datagram gen index type len pkt ∷ h.wire else h.wire))
        × ((send_fragment env encode_rs gen index type len pkt h).sends ≡ suc h.sends)
  unfolding send_fragment
  send-wire gen index type len pkt h = ground arith

  send_parity-wire :
      (g : GenerationState) (c : Collector) (p n : ℕ) (h : Host)
      → Holds g c
      → IsFull g
      → p + n ≤ max_parity
      → (send_parity env encode_rs g p n h).wire
        ≡ emit env h.sends (parity_datagrams encode_rs c.gen c.packets g.original_len p n) h.wire
  unfolding send_parity
  send_parity-wire g c p zero h v full le = refl
  send_parity-wire g c p (suc n) h v full le =
      send_parity-wire g c (suc p) n sent v full (omega arith)
      ∙ ground
          (arith, send-wire g.gen_id ((k_data + p) % 256) 1 (g.original_len % 2 ^ 16) row h, same)
    where
      row : List ℕ
      row = parity_row env encode_rs g p

      sent : Host
      sent =
          send_fragment env encode_rs g.gen_id ((k_data + p) % 256) 1 (g.original_len % 2 ^ 16) row
            h

      same :
          fragment_datagram g.gen_id ((k_data + p) % 256) 1 (g.original_len % 2 ^ 16) row
          ≡ fragment_datagram c.gen
              (k_data + p)
              1
              g.original_len
              (parity_of encode_rs c.packets g.original_len p)
      same = ground (arith, row-Holds g c p v full.all, v.id, full.len_le)

  send-Kept :
      (gen index type len : ℕ) (pkt : List ℕ) (h : Host)
      → Kept h (send_fragment env encode_rs gen index type len pkt h)
  unfolding send_fragment
  send-Kept gen index type len pkt h = ground arith

  Kept-trans : {a b c : Host} → Kept a b → Kept b c → Kept a c
  Kept-trans v w = ground arith

  send_parity-Kept :
      (g : GenerationState) (p n : ℕ) (h : Host) → Kept h (send_parity env encode_rs g p n h)
  unfolding send_parity
  send_parity-Kept g p zero h = ground arith
  send_parity-Kept g p (suc n) h =
      Kept-trans (send-Kept _ _ _ _ _ h) (send_parity-Kept g (suc p) n _)

  -- Flushing a full generation that holds eight packets counts it and sends, in order, one repair
  -- fragment for each of the configured repair symbols, with index 8 + p and as payload the p-th
  -- symbol of the code of each column of those packets; without repair symbols nothing is sent.
  pub flush_generation-wire :
      (g : GenerationState) (c : Collector) (h : Host)
      → Holds g c
      → IsFull g
      → h.parity_symbols ≤ max_parity
      → (h.parity_symbols ≡ 0) ⊎ (h.rs ≡ true)
      → ((flush_generation env encode_rs g h).wire
          ≡ emit env h.sends
              (parity_datagrams encode_rs c.gen c.packets g.original_len 0 h.parity_symbols)
              h.wire)
        × ((flush_generation env encode_rs g h).stats.generations_completed
            ≡ add64 h.stats.generations_completed 1)
  unfolding flush_generation
  flush_generation-wire g c h v full le rs = (go h.parity_symbols refl, counted)
    where
      start : Host
      start = time_encode env encode_rs (count_completed env encode_rs g h)

      counted :
          (flush_generation env encode_rs g h).stats.generations_completed
          ≡ add64 h.stats.generations_completed 1
      counted = ground (
        arith,
        full.all,
        (send_parity-Kept g 0 (count_completed env encode_rs g h).parity_symbols start).completed,
      )

      go :
          (r : ℕ)
          → h.parity_symbols ≡ r
          → (flush_generation env encode_rs g h).wire
            ≡ emit env h.sends
                (parity_datagrams encode_rs c.gen c.packets g.original_len 0 r)
                h.wire
      go zero e = ground (arith, full.all)
      go (suc r) e =
          ground (arith, full.all, send_parity-wire g c 0 (suc r) start v full (omega arith))

  -- A flush leaves the packets under way, the slot and the count of drops alone.
  pub flush-cur :
      (g : GenerationState) (h : Host)
      → ((flush_generation env encode_rs g h).cur_gen ≡ h.cur_gen)
        × ((flush_generation env encode_rs g h).rs_dropped ≡ h.rs_dropped)
        × ((flush_generation env encode_rs g h).parity_symbols ≡ h.parity_symbols)
  unfolding flush_generation
  flush-cur g h = ground (
    arith,
    send_parity-Kept g 0 (count_completed env encode_rs g h).parity_symbols
        (time_encode env encode_rs (count_completed env encode_rs g h)),
  )
