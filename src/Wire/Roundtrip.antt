-- ===== src/Wire/Roundtrip.antt =====
-- What the receivers read back from a header that the processing hosts wrote.
use openmc.Common.{ℕ, ◌+◌, ◌<◌, ◌^◌, ◌≡◌, refl, List, ◌++◌, arith, drop, length}
use openmc.Wire.{
  FecFragmentHdr, RqDataHdr, encode_fec_hdr, decode_fec_hdr, encode_rq_hdr, decode_rq_hdr,
  fec_hdr_size, rq_hdr_size,
}

-- Every field fits the width that the struct gives it.
pub record FecFits (h : FecFragmentHdr) : Type 0 where
  pub gen_id : h.gen_id < 2 ^ 16
  pub index : h.index < 2 ^ 8
  pub type : h.type < 2 ^ 8
  pub original_len : h.original_len < 2 ^ 16
  pub reserved : h.reserved < 2 ^ 16

pub record RqFits (h : RqDataHdr) : Type 0 where
  pub block_id : h.block_id < 2 ^ 16
  pub k : h.k < 2 ^ 16
  pub esi : h.esi < 2 ^ 32
  pub symbol_len : h.symbol_len < 2 ^ 16
  pub is_source : h.is_source < 2 ^ 8
  pub reserved : h.reserved < 2 ^ 8

-- A Reed-Solomon fragment whose fields fit is read back as it was written: the receiver's header
-- equals the sender's, the bytes behind it are the payload, and the datagram has the header's eight
-- bytes and the payload's.
pub decode-encode_fec_hdr :
    (h : FecFragmentHdr) (payload : List ℕ)
    → FecFits h
    → (decode_fec_hdr (encode_fec_hdr h ++ payload) ≡ h)
      × (drop fec_hdr_size (encode_fec_hdr h ++ payload) ≡ payload)
      × (length (encode_fec_hdr h ++ payload) ≡ fec_hdr_size + length payload)
unfolding encode_fec_hdr decode_fec_hdr
decode-encode_fec_hdr h payload f = (ground arith, refl, omega arith)

-- The same of a RaptorQ symbol and its twelve byte header.
pub decode-encode_rq_hdr :
    (h : RqDataHdr) (payload : List ℕ)
    → RqFits h
    → (decode_rq_hdr (encode_rq_hdr h ++ payload) ≡ h)
      × (drop rq_hdr_size (encode_rq_hdr h ++ payload) ≡ payload)
      × (length (encode_rq_hdr h ++ payload) ≡ rq_hdr_size + length payload)
unfolding encode_rq_hdr decode_rq_hdr
decode-encode_rq_hdr h payload f = (ground arith, refl, omega arith)
