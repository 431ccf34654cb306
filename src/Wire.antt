-- ===== src/Wire.antt =====
-- The headers that the processing hosts put before each symbol and the edge receivers read:
-- `struct fec_fragment_hdr` of src/processing_host/openmc_rs.c and src/edge_receiver/edge_receiver_rs.c,
-- `struct rq_data_hdr` of the two RaptorQ programs. A datagram is the list of its bytes. `htons` and
-- `htonl` followed by `memcpy` of the packed struct put the most significant byte first.
pub mod Roundtrip
mod Tests
use openmc.Common.{ℕ, ◌+◌, ◌*◌, ◌/◌, ◌%◌, List, [], ◌∷◌, ◌++◌, get_or}

pub record FecFragmentHdr : Type 0 where
  pub gen_id : ℕ
  pub index : ℕ
  pub type : ℕ
  pub original_len : ℕ
  pub reserved : ℕ

pub record RqDataHdr : Type 0 where
  pub block_id : ℕ
  pub k : ℕ
  pub esi : ℕ
  pub symbol_len : ℕ
  pub is_source : ℕ
  pub reserved : ℕ

abbrev pub fec_hdr_size : ℕ
fec_hdr_size = 8

abbrev pub rq_hdr_size : ℕ
rq_hdr_size = 12

-- the bytes of a `uint16_t` after `htons`
abbrev put_u16 : ℕ → List ℕ
put_u16 v = (v / 256) % 256 ∷ v % 256 ∷ []

-- the bytes of a `uint32_t` after `htonl`
abbrev put_u32 : ℕ → List ℕ
put_u32 v = (v / 16777216) % 256 ∷ (v / 65536) % 256 ∷ (v / 256) % 256 ∷ v % 256 ∷ []

-- `ntohs` and `ntohl` of the bytes at offset `i`
abbrev pub get_u16 : List ℕ → ℕ → ℕ
get_u16 buf i = get_or buf i 0 * 256 + get_or buf (i + 1) 0

abbrev get_u32 : List ℕ → ℕ → ℕ
get_u32 buf i = get_u16 buf i * 65536 + get_u16 buf (i + 2)

unfoldable pub encode_fec_hdr : FecFragmentHdr → List ℕ
encode_fec_hdr h =
    put_u16 h.gen_id
    ++ (h.index % 256 ∷ h.type % 256 ∷ put_u16 h.original_len ++ put_u16 h.reserved)

unfoldable pub decode_fec_hdr : List ℕ → FecFragmentHdr
decode_fec_hdr buf = record {
  gen_id = get_u16 buf 0;
  index = get_or buf 2 0;
  type = get_or buf 3 0;
  original_len = get_u16 buf 4;
  reserved = get_u16 buf 6;
}

unfoldable pub encode_rq_hdr : RqDataHdr → List ℕ
encode_rq_hdr h =
    put_u16 h.block_id
    ++ (put_u16 h.k
        ++ (put_u32 h.esi ++ (put_u16 h.symbol_len ++ h.is_source % 256 ∷ h.reserved % 256 ∷ [])))

unfoldable pub decode_rq_hdr : List ℕ → RqDataHdr
decode_rq_hdr buf = record {
  block_id = get_u16 buf 0;
  k = get_u16 buf 2;
  esi = get_u32 buf 4;
  symbol_len = get_u16 buf 8;
  is_source = get_or buf 10 0;
  reserved = get_or buf 11 0;
}
